-- ===== src/QueryTable/Tokens.antt =====
-- The pieces of a query make up the query.
use workload_simulator.Prelude.{
  ℕ, zero, suc, ◌-◌, ◌==◌, ◌≡◌, refl, sym, ap, ap₂, ◌∙◌, Bool, true, false, ◌&&◌, List, [], ◌∷◌,
  ◌++◌, append-nil, append_assoc, arith, Bool-cases, ==_iff, inl, inr, length,
}
use workload_simulator.Js.Parse.{lower_code, Text}
use workload_simulator.QueryTable.{
  lower, begins, split_from, split_and_fold, is_in, split_all, tokenize_from, tokenize_query,
  mark_token, time_token, number_token,
}

-- The pieces put together, in lower case.
abbrev pub joined : List Text → Text
joined [] = []
joined (s ∷ strings) = lower s ++ joined strings

abbrev pub skipped : ℕ → Text → Text
skipped zero s = s
skipped (suc n) [] = []
skipped (suc n) (x ∷ s) = skipped n s

lower-append : (s t : Text) → lower (s ++ t) ≡ lower s ++ lower t
lower-append [] t = refl
lower-append (x ∷ s) t = ap (lower_code x ∷◌) (lower-append s t)

joined-append : (xs ys : List Text) → joined (xs ++ ys) ≡ joined xs ++ joined ys
joined-append [] ys = refl
joined-append (x ∷ xs) ys =
    ap (λ t. lower x ++ t) (joined-append xs ys)
    ∙ sym (append_assoc (lower x) (joined xs) (joined ys))

both : (p q : Bool) → (p && q) ≡ true → (p ≡ true) × (q ≡ true)
both true q h = (refl, h)
both false q h = cc

-- Where `c` stands, it makes up the text with what follows it.
begins-lower : (c s : Text) → begins c s ≡ true → lower c ++ lower (skipped (length c) s) ≡ lower s
begins-lower [] s h = refl
begins-lower (a ∷ c) [] h = cc
begins-lower (a ∷ c) (b ∷ s) h =
    let (first, others) = both (lower_code a == lower_code b) (begins c s) h in
    ap₂ ◌∷◌ {x = lower_code a} {y = lower_code b} ((==_iff (lower_code a) (lower_code b)).0 first)
      (begins-lower c s others)

joined-split_from :
    (a : ℕ) (c : Text) (skip : ℕ) (piece s : Text)
    → joined (split_from (a ∷ c) skip piece s) ≡ lower piece ++ lower (skipped skip s)
unfolding split_from
joined-split_from a c zero piece [] = refl
joined-split_from a c (suc skip) piece [] = refl
joined-split_from a c (suc skip) piece (x ∷ s) = joined-split_from a c skip piece s
joined-split_from a c zero piece (x ∷ s) = elim (Bool-cases (begins (a ∷ c) (x ∷ s))) [
  | inl here ↦ rw here (
      ap (λ t. lower piece ++ (lower_code a ∷ (lower c ++ t)))
        (ap (λ n. joined (split_from (a ∷ c) n [] s)) {x = suc (length c) - 1} {y = length c}
            (omega arith)
          ∙ joined-split_from a c (length c) [] s)
      ∙ ap (λ t. lower piece ++ t) (begins-lower (a ∷ c) (x ∷ s) here))
  | inr apart ↦ rw apart (
      joined-split_from a c 0 (piece ++ x ∷ []) s
      ∙ ap (λ t. t ++ lower s) (lower-append piece (x ∷ []))
      ∙ append_assoc (lower piece) (lower (x ∷ [])) (lower s))
]

joined-split_all :
    (earlier : List Text) (a : ℕ) (c : Text) (strings : List Text)
    → joined (split_all earlier (a ∷ c) strings) ≡ joined strings
unfolding split_all
joined-split_all earlier a c [] = refl
joined-split_all earlier a c (s ∷ strings) = elim (Bool-cases (is_in s earlier)) [
  | inl old ↦ rw old (ap (λ t. lower s ++ t) (joined-split_all earlier a c strings))
  | inr text ↦ rw text (
      joined-append (split_and_fold s (a ∷ c)) (split_all earlier (a ∷ c) strings)
      ∙ ap₂ ◌++◌ (joined-split_from a c 0 [] s) (joined-split_all earlier a c strings))
]

-- The pieces of any query, put together, are the query, but for the case of its letters.
pub joined-tokenize_query : (query : Text) → joined (tokenize_query query) ≡ lower query
unfolding tokenize_query tokenize_from
joined-tokenize_query query =
    joined-split_all (mark_token ∷ time_token ∷ number_token ∷ []) b'^' [] _
    ∙ joined-split_all (mark_token ∷ time_token ∷ []) b'@' [] _
    ∙ joined-split_all (mark_token ∷ []) b'@' (b'T' ∷ []) _
    ∙ joined-split_all [] b'@' (b'M' ∷ []) (query ∷ [])
    ∙ append-nil (lower query)
