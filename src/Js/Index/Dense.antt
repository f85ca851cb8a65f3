-- ===== src/Js/Index/Dense.antt =====
-- Objects whose index keys leave no gap, and their entries one by one.
use mathlib.Core.Path.{subst}
use mathlib.Core.List.{Permᴰ}
use workload_simulator.Prelude.{
  ℕ, suc, ◌+◌, ◌-◌, ◌≤◌, ◌<◌, ◌≡◌, ◌≢◌, none, some, List, [], ◌∷◌, arith, All, length, ==_self,
}
use workload_simulator.Js.Index.{find, Ascending, Below}
use workload_simulator.Js.Index.Laws.{find-below}

pub All-imp {ℓ κ} :
    {A : Type ℓ} (P Q : A → Type κ) (xs : List A) → ((x : A) → P x → Q x) → All P xs → All Q xs
All-imp P Q [] h a = tt
All-imp P Q (x ∷ xs) h a = (h x a.0, All-imp P Q xs h a.1)

pub All-Permᴰ {ℓ κ} :
    {A : Type ℓ} (P : A → Type κ) {xs ys : List A} → Permᴰ xs ys → All P xs → All P ys
All-Permᴰ P Permᴰ.nil a = tt
All-Permᴰ P (Permᴰ.cons e d) a = (subst P e a.0, All-Permᴰ P d a.1)
All-Permᴰ P (Permᴰ.swap e f) a = (subst P f a.1.0, (subst P e a.0, a.1.1))
All-Permᴰ P (Permᴰ.trans d f) a = All-Permᴰ P f (All-Permᴰ P d a)

module _ {ℓ} {V : Type ℓ} where
  length-between : (lo hi : ℕ) (m : List (ℕ × V)) → Ascending lo m → Below hi m → length m ≤ hi - lo
  length-between lo hi [] a b = omega arith
  length-between lo hi ((j, v) ∷ m) a b = omega (arith, length-between (suc j) hi m a.1 b.1)

  -- As many keys as there are numbers in the range: every number of it is a key.
  pub no_gap :
      (lo hi k : ℕ) (m : List (ℕ × V))
      → Ascending lo m
      → Below hi m
      → hi ≤ lo + length m
      → lo ≤ k
      → k < hi
      → find k m ≢ none
  unfolding find
  no_gap lo hi k [] a b h l u = absurd (omega arith)
  no_gap lo hi k ((j, v) ∷ m) a b h l u =
      ground (arith, length-between (suc j) hi m a.1 b.1, no_gap (suc j) hi k m a.1 b.1)

  -- Each entry is found under its key.
  pub find-each : (lo : ℕ) (m : List (ℕ × V)) → Ascending lo m → All (λ t. find t.0 m ≡ some t.1) m
  unfolding find
  find-each lo [] a = tt
  find-each lo ((k, v) ∷ m) a = (
    ground (arith, ==_self k),
    All-imp (λ t. find t.0 m ≡ some t.1) (λ t. find t.0 ((k, v) ∷ m) ≡ some t.1) m
        (λ t e. ground (arith, find-below (suc k) k m)) (find-each (suc k) m a.1),
  )
