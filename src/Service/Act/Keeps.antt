-- ===== src/Service/Act/Keeps.antt =====
-- What an action keeps, whether it returns or raises, by the way it is put together.
use workload_simulator.Prelude.{◌≡◌, refl, Option, none, some, Bool, true, false, if◌then◌else◌}
use workload_simulator.Service.Act.{
  Ended, returned, raised, crashed, ServerException, Act, done, throw, crash, reads, go_on, ◌>>=◌,
}

pub record Keeps {ℓ} {S A : Type ℓ} (P : S → Type ℓ) (m : Act S A) : Type ℓ where
  pub kept : (s : S) → P s → P (m s).1

module _ {ℓ} {S A : Type ℓ} {P : S → Type ℓ} where
  pub Keeps-done : (a : A) → Keeps P (done a)
  unfolding done
  Keeps-done a = record { kept = λ s p. p }

  pub Keeps-throw : (e : ServerException) → Keeps P (throw {A = A} e)
  unfolding throw
  Keeps-throw e = record { kept = λ s p. p }

  pub Keeps-crash : Keeps P (crash {A = A})
  unfolding crash
  Keeps-crash = record { kept = λ s p. p }

  pub Keeps-reads : (f : S → A) → Keeps P (reads f)
  unfolding reads
  Keeps-reads f = record { kept = λ s p. p }

  pub Keeps-if : (b : Bool) (m n : Act S A) → Keeps P m → Keeps P n → Keeps P (if b then m else n)
  Keeps-if true m n k l = k
  Keeps-if false m n k l = l

module _ {ℓ} {S A X : Type ℓ} {P : S → Type ℓ} where
  pub Keeps-option :
      (o : Option X) (n : Act S A) (f : X → Act S A)
      → Keeps P n
      → ((x : X) → o ≡ some x → Keeps P (f x))
      → Keeps P (elim o as (λ _. Act S A) [ none ↦ n | some x ↦ f x ])
  Keeps-option none n f k l = k
  Keeps-option (some x) n f k l = l x refl

module _ {ℓ} {S A B : Type ℓ} {P : S → Type ℓ} where
  go_on-keeps :
      (f : A → Act S B) → ((a : A) → Keeps P (f a)) → (r : Ended A × S) → P r.1 → P (go_on f r).1
  go_on-keeps f k (returned a, s) p = (k a).kept s p
  go_on-keeps f k (raised e, s) p = p
  go_on-keeps f k (crashed, s) p = p

  pub Keeps-bind :
      (m : Act S A) (f : A → Act S B) → Keeps P m → ((a : A) → Keeps P (f a)) → Keeps P (m >>= f)
  unfolding ◌>>=◌
  Keeps-bind m f k l = record { kept = λ s p. go_on-keeps f l (m s) (k.kept s p) }

pub ruleset keeps_rules =
    (Keeps-done, Keeps-throw, Keeps-crash, Keeps-reads, Keeps-if, Keeps-option, Keeps-bind)
