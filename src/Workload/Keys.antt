-- ===== src/Workload/Keys.antt =====
-- The keys of the workload that is sent.
use workload_simulator.Prelude.{
  ℕ, ◌≡◌, refl, none, List, [], ◌∷◌, arith, length, ==_self, Bool-cases, Option-cases, inl, inr,
}
use workload_simulator.Js.Parse.{text_eq}
use workload_simulator.Js.Index.{find, put, Ascending, Below}
use workload_simulator.Js.Index.Laws.{Ascending-put, Below-put}
use workload_simulator.Widget.{Widget}
use workload_simulator.Registry.{Registry}
use workload_simulator.Registry.Invariant.{IsValid}
use workload_simulator.Workload.{Entry, entry_of, add_sent, collect, get_workload}

-- A widget adds an entry or nothing.
add_sent-cases :
    (P : List (ℕ × Entry) → Type 0) (i : ℕ) (w : Widget) (ret : List (ℕ × Entry))
    → P ret
    → ((e : Entry) → P (put i e ret))
    → P (add_sent i w ret)
unfolding add_sent
add_sent-cases P i w ret h k = elim (Option-cases w.codemirror) [
  | inl missing ↦ rw (missing, add_sent) h
  | inr (e, has) ↦ elim (Bool-cases (text_eq e.value [])) [
    | inl blank ↦ rw (has, add_sent, blank) h
    | inr written ↦ rw (has, add_sent, written) (k (entry_of e w))
  ]
]

collect-Ascending :
    (ret : List (ℕ × Entry)) (m : List (ℕ × Widget)) → Ascending 0 ret → Ascending 0 (collect ret m)
unfolding collect
collect-Ascending ret [] a = a
collect-Ascending ret ((i, w) ∷ m) a =
    collect-Ascending (add_sent i w ret) m
      (add_sent-cases (Ascending 0) i w ret a (λ e. Ascending-put 0 i e ret (omega arith) a))

collect-Below :
    (hi : ℕ) (ret : List (ℕ × Entry)) (m : List (ℕ × Widget))
    → Below hi ret
    → Below hi m
    → Below hi (collect ret m)
unfolding collect
collect-Below hi ret [] a b = a
collect-Below hi ret ((i, w) ∷ m) a b =
    collect-Below hi (add_sent i w ret) m
      (add_sent-cases (Below hi) i w ret a (λ e. Below-put hi i e ret b.0 a)) b.1

pub get_workload-Ascending : (r : Registry) → Ascending 0 (get_workload r)
unfolding get_workload
get_workload-Ascending r = collect-Ascending [] r.query_widget_map tt

pub get_workload-Below : (r : Registry) → IsValid r → Below r.global_query_id (get_workload r)
unfolding get_workload
get_workload-Below r valid = collect-Below r.global_query_id [] r.query_widget_map tt valid.below

pub all_missing : (es : List (ℕ × Entry)) → ((k : ℕ) → find k es ≡ none) → length es ≡ 0
unfolding find
all_missing [] h = refl
all_missing ((i, e) ∷ es) h = ground (arith, h i, ==_self i)
