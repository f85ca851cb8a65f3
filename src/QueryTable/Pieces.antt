-- ===== src/QueryTable/Pieces.antt =====
-- The pieces of a query are parameters and texts without parameters.
use mathlib.Core.Path.{subst}
use workload_simulator.Prelude.{
  ℕ, zero, suc, ◌-◌, ◌≡◌, refl, sym, ap, ◌∙◌, ◌⊎◌, Bool, true, false, ◌||◌, List, [], ◌∷◌, ◌++◌,
  append_assoc, arith, Bool-cases, inl, inr, length, All, All-append,
}
use workload_simulator.Js.Parse.{Text, text_eq}
use workload_simulator.Js.Parse.Laws.{text_eq_self}
use workload_simulator.Js.Index.Dense.{All-imp}
use workload_simulator.QueryTable.{
  lower, begins, split_from, split_and_fold, is_in, split_all, tokenize_from, tokenize_query,
  mark_token, time_token, number_token, all_param_tokens,
}
use workload_simulator.QueryTable.Tokens.{joined, joined-tokenize_query}

-- `c` stands nowhere in `s`.
abbrev pub Free : Text → Text → Type 0
Free c [] = Unit
Free c (x ∷ s) = (begins c (x ∷ s) ≡ false) × Free c s

-- `c` stands nowhere in `piece ++ s` from a place in `piece` on.
abbrev FreeBefore : Text → Text → Text → Type 0
FreeBefore c [] s = Unit
FreeBefore c (x ∷ piece) s = (begins c (x ∷ (piece ++ s)) ≡ false) × FreeBefore c piece s

begins-append : (c u s : Text) → begins c (u ++ s) ≡ false → begins c u ≡ false
begins-append [] u s h = h
begins-append (a ∷ c) [] s h = refl
begins-append (a ∷ c) (x ∷ u) s h = ground (arith, begins-append c u s)

FreeBefore-Free : (c piece s : Text) → FreeBefore c piece s → Free c piece
FreeBefore-Free c [] s f = tt
FreeBefore-Free c (x ∷ piece) s f =
    (begins-append c (x ∷ piece) s f.0, FreeBefore-Free c piece s f.1)

FreeBefore-append :
    (c piece : Text) (x : ℕ) (s : Text)
    → FreeBefore c piece (x ∷ s)
    → begins c (x ∷ s) ≡ false
    → FreeBefore c (piece ++ x ∷ []) s
FreeBefore-append c [] x s f h = (h, tt)
FreeBefore-append c (y ∷ piece) x s f h = (
  ap (λ t. begins c (y ∷ t)) (append_assoc piece (x ∷ []) s) ∙ f.0,
  FreeBefore-append c piece x s f.1 h,
)

-- While codes are passed over, no piece has begun.
abbrev Begun : Text → ℕ → Text → Text → Type 0
Begun e zero piece s = FreeBefore e piece s
Begun e (suc skip) piece s = piece ≡ []

-- A piece that is not the token itself.
abbrev Apart : Text → Text → Text → Type 0
Apart c e t = text_eq t c ≡ false → Free e t

fresh : (e : Text) (skip : ℕ) (s : Text) → Begun e skip [] s
fresh e zero s = tt
fresh e (suc skip) s = refl

module _ (a : ℕ) (c e : Text) where
  token-Apart : Apart (a ∷ c) e (a ∷ c)
  token-Apart h = absurd (cc (text_eq_self (a ∷ c), h))

  further : (x : ℕ) (s : Text) → (e ≡ a ∷ c) ⊎ Free e (x ∷ s) → (e ≡ a ∷ c) ⊎ Free e s
  further x s (inl same) = inl same
  further x s (inr f) = inr f.1

  not_here :
      (x : ℕ) (s : Text)
      → (e ≡ a ∷ c) ⊎ Free e (x ∷ s)
      → begins (a ∷ c) (x ∷ s) ≡ false
      → begins e (x ∷ s) ≡ false
  not_here x s (inl same) h = ap (λ t. begins t (x ∷ s)) same ∙ h
  not_here x s (inr f) h = f.0

  -- The pieces between the places of a token do not hold it, nor what the text does not hold.
  split_from-Apart :
      (skip : ℕ) (piece s : Text)
      → Begun e skip piece s
      → (e ≡ a ∷ c) ⊎ Free e s
      → All (Apart (a ∷ c) e) (split_from (a ∷ c) skip piece s)
  unfolding split_from
  split_from-Apart zero piece [] b f = ((λ h. FreeBefore-Free e piece [] b), tt)
  split_from-Apart (suc skip) piece [] b f = ((λ h. subst (Free e) (sym b) tt), tt)
  split_from-Apart (suc skip) piece (x ∷ s) b f =
      subst (λ p. All (Apart (a ∷ c) e) (split_from (a ∷ c) skip p s)) (sym b)
        (split_from-Apart skip [] s (fresh e skip s) (further x s f))
  split_from-Apart zero piece (x ∷ s) b f = elim (Bool-cases (begins (a ∷ c) (x ∷ s))) [
    | inl here ↦ rw here (
      (λ h. FreeBefore-Free e piece (x ∷ s) b),
      (token-Apart, split_from-Apart (suc (length c) - 1) [] s (fresh e _ s) (further x s f)),
    )
    | inr none_here ↦ rw none_here (
        split_from-Apart 0 (piece ++ x ∷ []) s
          (FreeBefore-append e piece x s b (not_here x s f none_here)) (further x s f))
  ]

-- A token, or a text in which none of the tokens stands.
abbrev pub IsPiece : List Text → Text → Type 0
IsPiece tokens t = (is_in t tokens ≡ true) ⊎ All (λ e. Free e t) tokens

is_in-append :
    (t c : Text) (tokens : List Text) → is_in t (tokens ++ c ∷ []) ≡ (is_in t tokens || text_eq t c)
is_in-append t c [] = ground arith
is_in-append t c (e ∷ tokens) = ground (arith, is_in-append t c tokens)

or-true : (b : Bool) → (b || true) ≡ true
or-true b = ground arith

-- Each piece of one text, given what is known of it for each token.
gather :
    (c : Text) (tokens out : List Text)
    → All (λ e. All (Apart c e) out) tokens
    → All (Apart c c) out
    → All (IsPiece (tokens ++ c ∷ [])) out
gather c tokens [] a b = tt
gather c tokens (t ∷ out) a b = (
  elim (Bool-cases (text_eq t c)) [
    | inl same ↦
        inl
          (is_in-append t c tokens ∙ ap (λ x. is_in t tokens || x) same ∙ or-true (is_in t tokens))
    | inr other ↦ inr (
        All-append (λ e. Free e t) tokens (c ∷ [])
          (All-imp (λ e. All (Apart c e) (t ∷ out)) (λ e. Free e t) tokens (λ e x. x.0 other) a)
          (b.0 other, tt))
  ],
  gather c tokens out
      (All-imp (λ e. All (Apart c e) (t ∷ out)) (λ e. All (Apart c e) out) tokens (λ e x. x.1) a)
      b.1,
)

split_all-IsPiece :
    (tokens : List Text) (a : ℕ) (c : Text) (strings : List Text)
    → All (IsPiece tokens) strings
    → All (IsPiece (tokens ++ (a ∷ c) ∷ [])) (split_all tokens (a ∷ c) strings)
unfolding split_all
split_all-IsPiece tokens a c [] p = tt
split_all-IsPiece tokens a c (s ∷ strings) p =
    let others = split_all-IsPiece tokens a c strings p.1 in
    elim (Bool-cases (is_in s tokens)) [
      | inl old ↦
          rw old
            (inl (is_in-append s (a ∷ c) tokens ∙ ap (λ x. x || text_eq s (a ∷ c)) old), others)
      | inr text ↦ elim p.0 [
        | inl old ↦ absurd (cc (text, old))
        | inr f ↦ rw text (
            All-append (IsPiece (tokens ++ (a ∷ c) ∷ [])) (split_and_fold s (a ∷ c))
              (split_all tokens (a ∷ c) strings)
              (gather (a ∷ c) tokens (split_and_fold s (a ∷ c))
                (All-imp (λ e. Free e s) (λ e. All (Apart (a ∷ c) e) (split_and_fold s (a ∷ c)))
                  tokens (λ e x. split_from-Apart a c e 0 [] s tt (inr x)) f)
                (split_from-Apart a c (a ∷ c) 0 [] s tt (inl refl)))
              others)
      ]
    ]

-- The pieces of any query are parameters, and texts in which none stands in any case of its letters,
-- and put together they are the query, but for the case of its letters.
pub tokenize_query-IsPiece :
    (query : Text)
    → All (IsPiece all_param_tokens) (tokenize_query query)
      × (joined (tokenize_query query) ≡ lower query)
unfolding tokenize_query tokenize_from
tokenize_query-IsPiece query = (
  split_all-IsPiece (mark_token ∷ time_token ∷ number_token ∷ []) b'^' [] _ (
      split_all-IsPiece (mark_token ∷ time_token ∷ []) b'@' [] _ (
        split_all-IsPiece (mark_token ∷ []) b'@' (b'T' ∷ []) _
          (split_all-IsPiece [] b'@' (b'M' ∷ []) (query ∷ []) (inr tt, tt)))),
  joined-tokenize_query query,
)
