-- ===== src/Workload/Sending.antt =====
-- The workload that is sent and the workload that is kept, compared.
use workload_simulator.Prelude.{
  ℕ, suc, ◌≡◌, List, [], ◌∷◌, ◌++◌, ◌∙◌, sym, ap, if◌then◌else◌, arith, append-nil, append_assoc,
  Option-cases, Bool-cases, inl, inr,
}
use workload_simulator.Js.Parse.{text_eq}
use workload_simulator.Js.Index.{Ascending, Below}
use workload_simulator.Js.Index.Laws.{put-above, Below-weaken, Below-append}
use workload_simulator.Widget.{Widget}
use workload_simulator.Registry.{Registry}
use workload_simulator.Registry.Invariant.{IsValid}
use workload_simulator.Workload.{Entry, entry_of, add_sent, collect, get_workload, cached_workload}
use workload_simulator.Workload.Saving.{entries_of, cached_workload-entries_of}

-- The entries whose query is a text with something in it.
abbrev pub without_empty : List (ℕ × Entry) → List (ℕ × Entry)
without_empty [] = []
without_empty ((i, e) ∷ m) =
    let others = without_empty m in if text_eq e.query [] then others else (i, e) ∷ others

collect-append :
    (lo : ℕ) (ret : List (ℕ × Entry)) (m : List (ℕ × Widget))
    → Below lo ret
    → Ascending lo m
    → collect ret m ≡ ret ++ without_empty (entries_of m)
unfolding collect add_sent
collect-append lo ret [] b a = sym (append-nil ret)
collect-append lo ret ((i, w) ∷ m) b a = elim (Option-cases w.codemirror) [
  | inl missing ↦
      rw (missing, add_sent) (collect-append (suc i) ret m (Below-weaken ret (omega arith) b) a.1)
  | inr (e, has) ↦ elim (Bool-cases (text_eq e.value [])) [
    | inl blank ↦
        rw (has, add_sent, blank)
          (collect-append (suc i) ret m (Below-weaken ret (omega arith) b) a.1)
    | inr written ↦
        rw (has, add_sent, written, put-above i (entry_of e w) ret (Below-weaken ret a.0 b))
          (collect-append (suc i) (ret ++ (i, entry_of e w) ∷ []) m
              (Below-append (suc i) i (entry_of e w) ret (omega arith)
                (Below-weaken ret (omega arith) b))
              a.1
            ∙ append_assoc ret ((i, entry_of e w) ∷ []) (without_empty (entries_of m)))
  ]
]

-- In a valid page the loop that reads off what the server gets finds the same entries under the same
-- ids as the loop that reads off what the browser keeps, without those whose query is empty.
pub get_workload-without_empty :
    (r : Registry) → IsValid r → get_workload r ≡ without_empty (cached_workload r)
unfolding get_workload
get_workload-without_empty r v =
    collect-append 0 [] r.query_widget_map tt v.ascending
    ∙ ap without_empty (sym (cached_workload-entries_of r v))
