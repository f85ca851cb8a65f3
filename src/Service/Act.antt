-- ===== src/Service/Act.antt =====
-- Code of the earlier server (stress/server.py) that changes its globals and may raise: a
-- `ServerException`, which the handlers catch, or any other, which becomes the answer 500. What was
-- changed before the exception stays changed.
pub mod Keeps
use workload_simulator.Prelude.{ℕ, List, ◌≡◌, refl, ap}
use workload_simulator.Js.Parse.{Text}

-- `ServerException`, and `WorkloadException` with the errors by query
pub data ServerException : Type 0 where
  server_exception : ℕ → Text → ServerException
  workload_exception : List (ℕ × Text) → ServerException

pub data Ended {ℓ} (A : Type ℓ) : Type ℓ where
  returned : A → Ended A
  raised : ServerException → Ended A
  crashed : Ended A

abbrev pub Act {ℓ} : Type ℓ → Type ℓ → Type ℓ
Act S A = S → Ended A × S

module _ {ℓ} {S A : Type ℓ} where
  unfoldable pub done : A → Act S A
  done a s = (returned a, s)

  unfoldable pub throw : ServerException → Act S A
  throw e s = (raised e, s)

  unfoldable pub crash : Act S A
  crash s = (crashed, s)

  unfoldable pub reads : (S → A) → Act S A
  reads f s = (returned (f s), s)

module _ {ℓ} {S A B : Type ℓ} where
  abbrev pub go_on : (A → Act S B) → Ended A × S → Ended B × S
  go_on f (returned a, s) = f a s
  go_on f (raised e, s) = (raised e, s)
  go_on f (crashed, s) = (crashed, s)

  infixl 10 ◌>>=◌ ◌>>◌
  unfoldable pub ◌>>=◌ : Act S A → (A → Act S B) → Act S B
  unfolding done throw crash reads
  (m >>= f) s = go_on f (m s)

  abbrev pub ◌>>◌ : Act S A → Act S B → Act S B
  m >> n = m >>= λ _. n

module _ {ℓ} {S A B : Type ℓ} where
  -- If the whole returned, so did its first part.
  pub record Began (m : Act S A) (f : A → Act S B) (s : S) (b : B) (t : S) : Type ℓ where
    pub value : A
    pub between : S
    pub first : m s ≡ (returned value, between)
    pub later : f value between ≡ (returned b, t)

  split :
      (f : A → Act S B) (r : Ended A × S) (b : B) (t : S)
      → go_on f r ≡ (returned b, t)
      → (a : A) × (u : S) × (r ≡ (returned a, u)) × (f a u ≡ (returned b, t))
  split f (returned a, u) b t e = (a, u, refl, e)
  split f (raised x, u) b t e = cc
  split f (crashed, u) b t e = cc

  pub began :
      (m : Act S A) (f : A → Act S B) (s : S) (b : B) (t : S)
      → (m >>= f) s ≡ (returned b, t)
      → Began m f s b t
  unfolding ◌>>=◌
  began m f s b t e =
      let (a, u, first, later) = split f (m s) b t e in
      record { value = a; between = u; first = first; later = later }

  pub bind-returned :
      (m : Act S A) (f : A → Act S B) (s : S) (a : A) (t : S)
      → m s ≡ (returned a, t)
      → (m >>= f) s ≡ f a t
  unfolding ◌>>=◌
  bind-returned m f s a t e = ap (go_on f) e

  pub bind-raised :
      (m : Act S A) (f : A → Act S B) (s : S) (x : ServerException) (t : S)
      → m s ≡ (raised x, t)
      → (m >>= f) s ≡ (raised x, t)
  unfolding ◌>>=◌
  bind-raised m f s x t e = ap (go_on f) e
