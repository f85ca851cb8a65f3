-- ===== src/Js/Index.antt =====
-- Objects with index keys, in the order in which `for (i in o)` goes through them.
pub mod Laws
pub mod Dense
use workload_simulator.Prelude.{
  ℕ, zero, suc, ◌≤◌, ◌<◌, Option, none, some, List, [], ◌∷◌, ltb, ◌==◌, if◌then◌else◌, All,
}

module _ {ℓ} {V : Type ℓ} where
  -- `o[k] = v`
  unfoldable pub put : ℕ → V → List (ℕ × V) → List (ℕ × V)
  put k v [] = (k, v) ∷ []
  put k v ((j, w) ∷ m) =
      if k == j then (k, v) ∷ m else if ltb k j then (k, v) ∷ (j, w) ∷ m else (j, w) ∷ put k v m

  -- `o[k]`
  unfoldable pub find : ℕ → List (ℕ × V) → Option V
  find k [] = none
  find k ((j, w) ∷ m) = if k == j then some w else find k m

  -- `delete o[k]`
  unfoldable pub remove : ℕ → List (ℕ × V) → List (ℕ × V)
  remove k [] = []
  remove k ((j, w) ∷ m) = if k == j then m else (j, w) ∷ remove k m

  -- The same object with `f` done to every value.
  unfoldable pub map_values {κ} : {W : Type κ} → (V → W) → List (ℕ × V) → List (ℕ × W)
  map_values f [] = []
  map_values f ((j, w) ∷ m) = (j, f w) ∷ map_values f m

  -- The keys ascend from `lo`.
  abbrev pub Ascending : ℕ → List (ℕ × V) → Type 0
  Ascending lo [] = Unit
  Ascending lo ((k, _) ∷ m) = (lo ≤ k) × Ascending (suc k) m

  -- Every key is below `hi`.
  abbrev pub Below : ℕ → List (ℕ × V) → Type 0
  Below hi [] = Unit
  Below hi ((k, _) ∷ m) = (k < hi) × Below hi m
