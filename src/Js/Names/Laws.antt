-- ===== src/Js/Names/Laws.antt =====
-- Laws of objects with names for keys.
use mathlib.Core.Path.{subst}
use workload_simulator.Prelude.{
  suc, ◌≤◌, ◌≡◌, sym, ap, refl, ◌∙◌, if◌then◌else◌, some, false, none, List, [], ◌∷◌, arith, All,
  length, Bool-cases, inl, inr,
}
use workload_simulator.Js.Parse.{Text, text_eq}
use workload_simulator.Js.Parse.Laws.{eq_of_text_eq}
use workload_simulator.Js.Names

-- No key of `m` is `k`.
abbrev pub Lacks {ℓ} : {V : Type ℓ} → Text → List (Text × V) → Type 0
Lacks k m = All (λ t. text_eq k t.0 ≡ false) m

pub find-put-none {ℓ} :
    {V : Type ℓ} (k j : Text) (v : V) (m : List (Text × V))
    → Names.find k (Names.put j v m) ≡ none
    → (text_eq k j ≡ false) × (Names.find k m ≡ none)
unfolding Names.put Names.find
find-put-none k j v [] h = ground arith
find-put-none k j v ((i, w) ∷ m) h = elim (Bool-cases (text_eq j i)) [
  | inl same ↦ ground (arith, eq_of_text_eq j i)
  | inr other ↦ ground (arith, find-put-none k j v m)
]

pub length-put {ℓ} :
    {V : Type ℓ} (j : Text) (v : V) (m : List (Text × V))
    → length (Names.put j v m) ≤ suc (length m)
unfolding Names.put
length-put j v [] = omega arith
length-put j v ((i, w) ∷ m) = ground (arith, length-put j v m)

pub All-put {ℓ κ} :
    {V : Type ℓ} (P : Text × V → Type κ) (j : Text) (v : V) (m : List (Text × V))
    → P (j, v)
    → All P m
    → All P (Names.put j v m)
unfolding Names.put
All-put P j v [] h a = (h, tt)
All-put P j v ((i, w) ∷ m) h a = elim (Bool-cases (text_eq j i)) [
  | inl same ↦ rw same (subst (λ x. P (x, v)) (eq_of_text_eq j i same) h, a.1)
  | inr other ↦ rw other (a.0, All-put P j v m h a.1)
]

pub find-put {ℓ} :
    {V : Type ℓ} (k j : Text) (v : V) (m : List (Text × V))
    → Names.find k (Names.put j v m) ≡ (if text_eq k j then some v else Names.find k m)
unfolding Names.put Names.find
find-put k j v [] = refl
find-put k j v ((i, w) ∷ m) = elim (Bool-cases (text_eq j i)) [
  | inl same ↦ elim (Bool-cases (text_eq k j)) [
    | inl found ↦
        rw (same, found, sym (ap (λ t. text_eq k t) (eq_of_text_eq j i same)) ∙ found) refl
    | inr passed ↦
        rw (same, passed, sym (ap (λ t. text_eq k t) (eq_of_text_eq j i same)) ∙ passed) refl
  ]
  | inr other ↦ elim (Bool-cases (text_eq k j)) [
    | inl found ↦
        rw (other, found, ap (λ t. text_eq t i) (eq_of_text_eq k j found) ∙ other)
          (find-put k j v m ∙ rw found refl)
    | inr passed ↦ elim (Bool-cases (text_eq k i)) [
      | inl here ↦ rw (other, passed, here) refl
      | inr later ↦ rw (other, passed, later) (find-put k j v m ∙ rw passed refl)
    ]
  ]
]
