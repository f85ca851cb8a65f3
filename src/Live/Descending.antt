-- ===== src/Live/Descending.antt =====
-- The sorted rates from the highest on.
use mathlib.Core.List.{Perm}
use mathlib.Core.List.Perm
use workload_simulator.Prelude.{◌≡◌, false, List, [], ◌∷◌, ◌++◌, reverse, All, All-append}
use workload_simulator.Js.{num_lt}
use workload_simulator.Js.Parse.{Text, Num}
use workload_simulator.Live.{sort_rates}
use workload_simulator.Live.Sorting.{IsSorted, Numbers, sort_rates-IsSorted}

pub All-reverse : (P : Text × Num → Type 0) (ts : List (Text × Num)) → All P ts → All P (reverse ts)
unfolding reverse
All-reverse P [] a = tt
All-reverse P (t ∷ ts) (h, a) = All-append P (reverse ts) (t ∷ []) (All-reverse P ts a) (h, tt)

-- None has a lower rate than one behind it.
abbrev pub IsDescending : List (Text × Num) → Type 0
IsDescending [] = Unit
IsDescending (t ∷ ts) = All (λ u. num_lt t.1 u.1 ≡ false) ts × IsDescending ts

IsDescending-append :
    (ts : List (Text × Num)) (t : Text × Num)
    → All (λ u. num_lt u.1 t.1 ≡ false) ts
    → IsDescending ts
    → IsDescending (ts ++ t ∷ [])
IsDescending-append [] t a d = (tt, tt)
IsDescending-append (u ∷ ts) t (h, a) (b, d) =
    (All-append _ ts (t ∷ []) b (h, tt), IsDescending-append ts t a d)

IsDescending-reverse : (ts : List (Text × Num)) → IsSorted ts → IsDescending (reverse ts)
unfolding reverse
IsDescending-reverse [] s = tt
IsDescending-reverse (t ∷ ts) (a, s) =
    IsDescending-append (reverse ts) t (All-reverse _ ts a) (IsDescending-reverse ts s)

append-Perm : (ts : List (Text × Num)) (t : Text × Num) → Perm (ts ++ t ∷ []) (t ∷ ts)
append-Perm [] t = Perm.refl (t ∷ [])
append-Perm (u ∷ ts) t = Perm.trans (Perm.cons u (append-Perm ts t)) (Perm.swap t u ts)

reverse-Perm : (ts : List (Text × Num)) → Perm (reverse ts) ts
unfolding reverse
reverse-Perm [] = Perm.refl []
reverse-Perm (t ∷ ts) = Perm.trans (append-Perm (reverse ts) t) (Perm.cons t (reverse-Perm ts))

pub reverse-IsDescending :
    (ts : List (Text × Num))
    → Numbers ts
    → Perm (reverse (sort_rates ts)) ts × IsDescending (reverse (sort_rates ts))
reverse-IsDescending ts n =
    let (perm, sorted) = sort_rates-IsSorted ts n in
    (Perm.trans (reverse-Perm (sort_rates ts)) perm, IsDescending-reverse (sort_rates ts) sorted)
