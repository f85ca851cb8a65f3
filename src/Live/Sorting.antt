-- ===== src/Live/Sorting.antt =====
-- The order of the rates, and that their total does not depend on it.
use mathlib.Core.List.{Permᴰ, Perm}
use mathlib.Core.List.Permᴰ
use workload_simulator.Prelude.{
  ℤ, ltb_ℤ, ◌≡◌, refl, sym, ap, ◌∙◌, true, false, List, [], ◌∷◌, ◌++◌, arith, int_laws, Bool-cases,
  inl, inr, reverse, All,
}
use workload_simulator.Js.{num_add, num_lt}
use workload_simulator.Js.Parse.{Text, Num, nan, int}
use workload_simulator.Live.{insert_rate, sort_rates, total_qps}

num_add_right_comm : (a b c : Num) → num_add (num_add a b) c ≡ num_add (num_add a c) b
num_add_right_comm (int a) (int b) (int c) = ap int (omega int_laws)
num_add_right_comm nan b c = refl
num_add_right_comm (int a) nan nan = refl
num_add_right_comm (int a) nan (int c) = refl
num_add_right_comm (int a) (int b) nan = refl

total_qps-append :
    (total : Num) (ts us : List (Text × Num))
    → total_qps total (ts ++ us) ≡ total_qps (total_qps total ts) us
unfolding total_qps
total_qps-append total [] us = refl
total_qps-append total ((_, rate) ∷ ts) us = total_qps-append (num_add total rate) ts us

total_qps-later :
    (total rate : Num) (ts : List (Text × Num))
    → total_qps (num_add total rate) ts ≡ num_add (total_qps total ts) rate
unfolding total_qps
total_qps-later total rate [] = refl
total_qps-later total rate ((_, r) ∷ ts) =
    ap (λ n. total_qps n ts) (num_add_right_comm total rate r)
    ∙ total_qps-later (num_add total r) rate ts

pub total_qps-reverse :
    (total : Num) (ts : List (Text × Num)) → total_qps total (reverse ts) ≡ total_qps total ts
unfolding total_qps reverse
total_qps-reverse total [] = refl
total_qps-reverse total ((s, rate) ∷ ts) =
    total_qps-append total (reverse ts) ((s, rate) ∷ [])
    ∙ ap (λ n. num_add n rate) (total_qps-reverse total ts)
    ∙ sym (total_qps-later total rate ts)

total_qps-insert_rate :
    (total : Num) (t : Text × Num) (ts : List (Text × Num))
    → total_qps total (insert_rate t ts) ≡ total_qps (num_add total t.1) ts
unfolding total_qps insert_rate
total_qps-insert_rate total t [] = refl
total_qps-insert_rate total t ((s, r) ∷ ts) = elim (Bool-cases (num_lt r t.1)) [
  | inl later ↦ rw later (
      total_qps-insert_rate (num_add total r) t ts
      ∙ ap (λ n. total_qps n ts) (num_add_right_comm total r t.1))
  | inr here ↦ rw here refl
]

pub total_qps-sort_rates :
    (total : Num) (ts : List (Text × Num)) → total_qps total (sort_rates ts) ≡ total_qps total ts
unfolding total_qps sort_rates
total_qps-sort_rates total [] = refl
total_qps-sort_rates total ((s, r) ∷ ts) =
    total_qps-insert_rate total (s, r) (sort_rates ts) ∙ total_qps-sort_rates (num_add total r) ts

-- `t` is not above any of them.
abbrev pub Lowest : Text × Num → List (Text × Num) → Type 0
Lowest t ts = All (λ u. num_lt u.1 t.1 ≡ false) ts

abbrev pub IsSorted : List (Text × Num) → Type 0
IsSorted [] = Unit
IsSorted (t ∷ ts) = Lowest t ts × IsSorted ts

-- The server sends numbers.
abbrev pub Numbers : List (Text × Num) → Type 0
Numbers ts = All (λ t. (n : _) × (t.1 ≡ int n)) ts

pub All-insert_rate {κ} :
    (P : Text × Num → Type κ) (t : Text × Num) (us : List (Text × Num))
    → P t
    → All P us
    → All P (insert_rate t us)
unfolding insert_rate
All-insert_rate P t [] h a = (h, a)
All-insert_rate P t (u ∷ us) h a = elim (Bool-cases (num_lt u.1 t.1)) [
  | inl later ↦ rw later (a.0, All-insert_rate P t us h a.1)
  | inr here ↦ rw here (h, a)
]

pub All-sort_rates {κ} :
    (P : Text × Num → Type κ) (ts : List (Text × Num)) → All P ts → All P (sort_rates ts)
unfolding sort_rates
All-sort_rates P [] a = tt
All-sort_rates P (t ∷ ts) a = All-insert_rate P t (sort_rates ts) a.0 (All-sort_rates P ts a.1)

not_above :
    (t u v : Text × Num)
    → ((n : _) × (t.1 ≡ int n))
    → ((n : _) × (u.1 ≡ int n))
    → ((n : _) × (v.1 ≡ int n))
    → num_lt u.1 t.1 ≡ false
    → num_lt v.1 u.1 ≡ false
    → num_lt v.1 t.1 ≡ false
not_above (_, t) (_, u) (_, v) (a, ea) (b, eb) (c, ec) h k =
    rw (ec, ea) (lower a b c (rw (eb, ea) at h) (rw (ec, eb) at k))
  where
    lower : (a b c : ℤ) → ltb_ℤ b a ≡ false → ltb_ℤ c b ≡ false → ltb_ℤ c a ≡ false
    lower a b c h k = ground arith

not_both :
    (t u : Text × Num)
    → ((n : _) × (t.1 ≡ int n))
    → ((n : _) × (u.1 ≡ int n))
    → num_lt u.1 t.1 ≡ true
    → num_lt t.1 u.1 ≡ false
not_both (_, t) (_, u) (a, ea) (b, eb) h = rw (ea, eb) (one a b (rw (ea, eb) at h))
  where
    one : (a b : ℤ) → ltb_ℤ b a ≡ true → ltb_ℤ a b ≡ false
    one a b h = ground arith

Lowest-trans :
    (t u : Text × Num) (us : List (Text × Num))
    → Numbers (t ∷ u ∷ us)
    → num_lt u.1 t.1 ≡ false
    → Lowest u us
    → Lowest t us
Lowest-trans t u [] n h l = tt
Lowest-trans t u (v ∷ us) (nt, (nu, (nv, n))) h (k, l) =
    (not_above t u v nt nu nv h k, Lowest-trans t u us (nt, (nu, n)) h l)

insert_rate-IsSorted :
    (t : Text × Num) (us : List (Text × Num))
    → Numbers (t ∷ us)
    → IsSorted us
    → IsSorted (insert_rate t us)
unfolding insert_rate
insert_rate-IsSorted t [] n s = (tt, tt)
insert_rate-IsSorted t (u ∷ us) (nt, (nu, n)) (l, s) = elim (Bool-cases (num_lt u.1 t.1)) [
  | inl later ↦ rw later (
    All-insert_rate (λ v. num_lt v.1 u.1 ≡ false) t us (not_both t u nt nu later) l,
    insert_rate-IsSorted t us (nt, n) s,
  )
  | inr here ↦ rw here ((here, Lowest-trans t u us (nt, (nu, n)) here l), (l, s))
]

insert_rate-Permᴰ : (t : Text × Num) (us : List (Text × Num)) → Permᴰ (insert_rate t us) (t ∷ us)
unfolding insert_rate
insert_rate-Permᴰ t [] = Permᴰ.refl (t ∷ [])
insert_rate-Permᴰ t (u ∷ us) = elim (Bool-cases (num_lt u.1 t.1)) [
  | inl later ↦
      rw later (Permᴰ.trans (Permᴰ.cons refl (insert_rate-Permᴰ t us)) (Permᴰ.swap refl refl))
  | inr here ↦ rw here (Permᴰ.refl (t ∷ u ∷ us))
]

sort_rates-Permᴰ : (ts : List (Text × Num)) → Permᴰ (sort_rates ts) ts
unfolding sort_rates
sort_rates-Permᴰ [] = Permᴰ.refl []
sort_rates-Permᴰ (t ∷ ts) =
    Permᴰ.trans (insert_rate-Permᴰ t (sort_rates ts)) (Permᴰ.cons refl (sort_rates-Permᴰ ts))

sorted : (ts : List (Text × Num)) → Numbers ts → IsSorted (sort_rates ts)
unfolding sort_rates
sorted [] n = tt
sorted (t ∷ ts) (nt, n) =
    insert_rate-IsSorted t (sort_rates ts) (nt, All-sort_rates _ ts n) (sorted ts n)

-- The sorting of the rates keeps every query and its rate, and puts them in the ascending order of the
-- rates, provided that the rates are numbers.
pub sort_rates-IsSorted :
    (ts : List (Text × Num)) → Numbers ts → Perm (sort_rates ts) ts × IsSorted (sort_rates ts)
sort_rates-IsSorted ts n = (∣ sort_rates-Permᴰ ts ∣₁, sorted ts n)
