-- ===== src/Js/Names.antt =====
-- Objects with names for keys, in the order in which the names were first set.
pub mod Laws
use workload_simulator.Prelude.{
  ap, refl, ◌++◌, false, Bool-cases, inl, inr, ◌≡◌, Option, none, some, List, [], ◌∷◌,
  if◌then◌else◌, arith,
}
use workload_simulator.Js.Parse.{Text, text_eq}
use workload_simulator.Js.Parse.Laws.{text_eq_self}

module _ {ℓ} {V : Type ℓ} where
  -- `o[k] = v`
  unfoldable pub put : Text → V → List (Text × V) → List (Text × V)
  put k v [] = (k, v) ∷ []
  put k v ((j, w) ∷ m) = if text_eq k j then (j, v) ∷ m else (j, w) ∷ put k v m

  -- `o[k]`
  unfoldable pub find : Text → List (Text × V) → Option V
  find k [] = none
  find k ((j, w) ∷ m) = if text_eq k j then some w else find k m

  -- A new value for a key that is there; nothing for one that is not.
  unfoldable pub assign : Text → V → List (Text × V) → List (Text × V)
  assign k v [] = []
  assign k v ((j, w) ∷ m) = if text_eq k j then (j, v) ∷ m else (j, w) ∷ assign k v m

  pub find-put_self : (k : Text) (v : V) (m : List (Text × V)) → find k (put k v m) ≡ some v
  unfolding put find
  find-put_self k v [] = ground (arith, text_eq_self k)
  find-put_self k v ((j, w) ∷ m) = ground (arith, find-put_self k v m)

  pub put-fresh :
      (k : Text) (v : V) (m : List (Text × V)) → find k m ≡ none → put k v m ≡ m ++ (k, v) ∷ []
  unfolding put find
  put-fresh k v [] e = refl
  put-fresh k v ((j, w) ∷ m) e = elim (Bool-cases (text_eq k j)) [
    | inl same ↦ cc (rw same at e)
    | inr other ↦ rw other (ap (λ n. (j, w) ∷ n) (put-fresh k v m (rw other at e)))
  ]

  pub find-put_other :
      (k j : Text) (v : V) (m : List (Text × V))
      → text_eq k j ≡ false
      → find k m ≡ none
      → find k (put j v m) ≡ none
  unfolding put find
  find-put_other k j v [] h e = rw h refl
  find-put_other k j v ((i, w) ∷ m) h e = elim (Bool-cases (text_eq k i)) [
    | inl same ↦ cc (rw same at e)
    | inr other ↦ elim (Bool-cases (text_eq j i)) [
      | inl here ↦ rw (here, other) (rw other at e)
      | inr later ↦ rw (later, other) (find-put_other k j v m h (rw other at e))
    ]
  ]
