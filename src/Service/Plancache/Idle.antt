-- ===== src/Service/Plancache/Idle.antt =====
-- The live rate of a query is made of its own rows.
use mathlib.Core.Path.{subst}
use workload_simulator.Prelude.{
  ℕ, ℤ, pos, ◌-ℤ◌, eq_ℤ, ◌≡◌, refl, sym, ap, ap₂, ◌∙◌, true, false, not, ◌&&◌, ◌||◌, Option, none,
  some, List, [], ◌∷◌, ◌++◌, if◌then◌else◌, Bool-cases, Option-cases, inl, inr,
}
use workload_simulator.Js.Parse.{Text, text_eq}
use workload_simulator.Js.Parse.Laws.{eq_of_text_eq}
use workload_simulator.Js.Names
use workload_simulator.Js.Names.Laws.{find-put}
use workload_simulator.Service.Plancache.{
  Row, Plancache, execs, is_known, stats_of, take_row, take_rows, look_all,
}

-- The counts of a query in a look, in the order of the rows.
abbrev pub runs_in : Text → Text → List Row → List ℕ
runs_in db k [] = []
runs_in db k (r ∷ rows) =
    let later = runs_in db k rows in
    if text_eq r.database db && text_eq k r.query_text then execs r ∷ later else later

abbrev pub runs_of : Text → Text → List (List Row) → List ℕ
runs_of db k [] = []
runs_of db k (rows ∷ looks) = runs_in db k rows ++ runs_of db k looks

-- The count seen last, and the rate.
abbrev pub Track : Type 0
Track = Option ℕ × Option ℤ

-- A rate is the difference of two counts in a row; there is none before two of them have differed.
abbrev pub next_rate : ℕ → Option ℕ → Option ℤ → Option ℤ
next_rate n none rate = rate
next_rate n (some prev) none = if eq_ℤ (pos n) (pos prev) then none else some (pos n -ℤ pos prev)
next_rate n (some prev) (some rate) = some (pos n -ℤ pos prev)

abbrev pub track : List ℕ → Track → Track
track [] t = t
track (n ∷ runs) (prev, rate) = track runs (some n, next_rate n prev rate)

abbrev pub seen_of : Text → Plancache → Track
seen_of k c = (Names.find k c.prev_pc, Names.find k c.stats)

find-stats_of :
    (r : Row) (o : Option ℕ) (stats : List (Text × ℤ))
    → Names.find r.query_text (stats_of r o stats)
      ≡ next_rate (execs r) o (Names.find r.query_text stats)
find-stats_of r none stats = refl
find-stats_of r (some prev) stats = elim (Option-cases (Names.find r.query_text stats)) [
  | inl missing ↦ elim (Bool-cases (eq_ℤ (pos (execs r)) (pos prev))) [
    | inl same ↦
        let unknown : is_known r.query_text stats ≡ false = rw (missing, is_known) refl in
        rw (missing, unknown, same) missing
    | inr differs ↦
        let unknown : is_known r.query_text stats ≡ false = rw (missing, is_known) refl in
        rw (missing, unknown, differs) (Names.find-put_self r.query_text _ stats)
  ]
  | inr (rate, found) ↦
      let known : is_known r.query_text stats ≡ true = rw (found, is_known) refl in
      rw (found, known) (Names.find-put_self r.query_text _ stats)
]

find-stats_of_other :
    (k : Text) (r : Row) (o : Option ℕ) (stats : List (Text × ℤ))
    → text_eq k r.query_text ≡ false
    → Names.find k (stats_of r o stats) ≡ Names.find k stats
find-stats_of_other k r none stats differs = refl
find-stats_of_other k r (some prev) stats differs =
    elim (Bool-cases (is_known r.query_text stats || not (eq_ℤ (pos (execs r)) (pos prev)))) [
      | inl set ↦ rw set (find-put k r.query_text _ stats ∙ rw differs refl)
      | inr kept ↦ rw kept refl
    ]

seen_of-take_row :
    (db k : Text) (r : Row) (c : Plancache)
    → seen_of k (take_row db r c) ≡ (
        if text_eq r.database db && text_eq k r.query_text
        then (some (execs r), next_rate (execs r) (Names.find k c.prev_pc) (Names.find k c.stats))
        else seen_of k c)
unfolding take_row
seen_of-take_row db k r c = elim (Bool-cases (text_eq r.database db)) [
  | inr elsewhere ↦ rw elsewhere refl
  | inl here ↦ elim (Bool-cases (text_eq k r.query_text)) [
    | inl same ↦
        rw (here, same)
          (ap₂ (λ (a : Option ℕ) (b : Option ℤ). (a, b))
            (find-put k r.query_text (execs r) c.prev_pc ∙ rw same refl)
            (subst
              (λ t.
                Names.find t (stats_of r (Names.find r.query_text c.prev_pc) c.stats)
                ≡ next_rate (execs r) (Names.find t c.prev_pc) (Names.find t c.stats))
              (sym (eq_of_text_eq k r.query_text same))
              (find-stats_of r (Names.find r.query_text c.prev_pc) c.stats)))
    | inr differs ↦
        rw (here, differs)
          (ap₂ (λ (a : Option ℕ) (b : Option ℤ). (a, b))
            (find-put k r.query_text (execs r) c.prev_pc ∙ rw differs refl)
            (find-stats_of_other k r (Names.find r.query_text c.prev_pc) c.stats differs))
  ]
]

track-append : (xs ys : List ℕ) (t : Track) → track (xs ++ ys) t ≡ track ys (track xs t)
track-append [] ys t = refl
track-append (n ∷ xs) ys (prev, rate) = track-append xs ys (some n, next_rate n prev rate)

seen_of-take_rows :
    (db k : Text) (rows : List Row) (c : Plancache)
    → seen_of k (take_rows db rows c) ≡ track (runs_in db k rows) (seen_of k c)
unfolding take_rows
seen_of-take_rows db k [] c = refl
seen_of-take_rows db k (r ∷ rows) c =
    seen_of-take_rows db k rows (take_row db r c)
    ∙ ap (λ t. track (runs_in db k rows) t) (seen_of-take_row db k r c)
    ∙ elim (Bool-cases (text_eq r.database db && text_eq k r.query_text)) [
      | inl own ↦ rw own refl
      | inr other ↦ rw other refl
    ]

-- However the rows of the queries are mixed, the count that the server keeps of a query and its live
-- rate are those that the counts of its own rows in its database give, one after the other: no rate
-- before two counts in a row have differed, and then the difference between the last two.
pub seen_of-look_all :
    (db k : Text) (looks : List (List Row)) (c : Plancache)
    → seen_of k (look_all db looks c) ≡ track (runs_of db k looks) (seen_of k c)
unfolding look_all
seen_of-look_all db k [] c = refl
seen_of-look_all db k (rows ∷ looks) c =
    seen_of-look_all db k looks (take_rows db rows c)
    ∙ ap (λ t. track (runs_of db k looks) t) (seen_of-take_rows db k rows c)
    ∙ sym (track-append (runs_in db k rows) (runs_of db k looks) (seen_of k c))
