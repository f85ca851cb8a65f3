-- ===== src/Workload/Saving.antt =====
-- What a saved workload holds.
use workload_simulator.Prelude.{
  ℕ, suc, ◌≡◌, refl, Option, none, some, List, [], ◌∷◌, ◌==◌, if◌then◌else◌, arith, ◌++◌, ◌∙◌, sym,
  append-nil, append_assoc, Option-cases, inl, inr,
}
use workload_simulator.Js.Parse.{text_eq}
use workload_simulator.Js.Index.{find, Ascending, Below}
use workload_simulator.Js.Index.Laws.{find-put, find-below, put-above, Below-weaken, Below-append}
use workload_simulator.Widget.{Widget}
use workload_simulator.Registry.{Registry}
use workload_simulator.Registry.Invariant.{IsValid}
use workload_simulator.Workload.{
  Entry, entry_of, add_sent, collect, get_workload, add_cached, collect_all, cached_workload,
}

-- What a widget contributes to the workload that is sent to the server.
abbrev pub sent : Option Widget → Option Entry
sent none = none
sent (some w) = elim w.codemirror [
  | none ↦ none
  | some e ↦ if text_eq e.value [] then none else some (entry_of e w)
]

-- What it contributes to the workload that the browser keeps.
abbrev pub kept : Option Widget → Option Entry
kept none = none
kept (some w) = elim w.codemirror [ none ↦ none | some e ↦ some (entry_of e w) ]

abbrev or_else : Option Entry → Option Entry → Option Entry
or_else (some e) o = some e
or_else none o = o

find-add_sent :
    (k i : ℕ) (w : Widget) (ret : List (ℕ × Entry))
    → find k (add_sent i w ret)
      ≡ (if k == i then or_else (sent (some w)) (find k ret) else find k ret)
unfolding add_sent
find-add_sent k i w ret = elim (Option-cases w.codemirror) [
  | inl missing ↦ ground arith
  | inr (e, has) ↦ ground (arith, find-put i k (entry_of e w) ret)
]

find-collect :
    (lo k : ℕ) (ret : List (ℕ × Entry)) (m : List (ℕ × Widget))
    → Ascending lo m
    → find k (collect ret m) ≡ or_else (sent (find k m)) (find k ret)
unfolding collect find
find-collect lo k ret [] a = refl
find-collect lo k ret ((i, w) ∷ m) a = ground (
  arith,
  find-collect (suc i) k (add_sent i w ret) m a.1,
  find-add_sent k i w ret,
  find-below (suc i) k m,
)

find-add_cached :
    (k i : ℕ) (w : Widget) (all : List (ℕ × Entry))
    → find k (add_cached i w all)
      ≡ (if k == i then or_else (kept (some w)) (find k all) else find k all)
unfolding add_cached
find-add_cached k i w all = elim (Option-cases w.codemirror) [
  | inl missing ↦ ground arith
  | inr (e, has) ↦ ground (arith, find-put i k (entry_of e w) all)
]

find-collect_all :
    (lo k : ℕ) (all : List (ℕ × Entry)) (m : List (ℕ × Widget))
    → Ascending lo m
    → find k (collect_all all m) ≡ or_else (kept (find k m)) (find k all)
unfolding collect_all find
find-collect_all lo k all [] a = refl
find-collect_all lo k all ((i, w) ∷ m) a = ground (
  arith,
  find-collect_all (suc i) k (add_cached i w all) m a.1,
  find-add_cached k i w all,
  find-below (suc i) k m,
)

or_else-none : (o : Option Entry) → or_else o none ≡ o
or_else-none none = refl
or_else-none (some e) = refl

-- In a valid page the workload that is sent has an entry under an id exactly if the widget with
-- that id has an editor with a text in it, and the entry holds that text and what the dial shows.
pub find-get_workload :
    (r : Registry) (k : ℕ) → IsValid r → find k (get_workload r) ≡ sent (find k r.query_widget_map)
unfolding get_workload find
find-get_workload r k v =
    find-collect 0 k [] r.query_widget_map v.ascending
    ∙ or_else-none (sent (find k r.query_widget_map))

-- The workload that the browser keeps has an entry for every widget of a valid page, with an empty
-- query too.
pub find-cached_workload :
    (r : Registry) (k : ℕ)
    → IsValid r
    → find k (cached_workload r) ≡ kept (find k r.query_widget_map)
unfolding cached_workload find
find-cached_workload r k v =
    find-collect_all 0 k [] r.query_widget_map v.ascending
    ∙ or_else-none (kept (find k r.query_widget_map))

-- The entries that `cacheWorkload` makes, in order.
abbrev pub entries_of : List (ℕ × Widget) → List (ℕ × Entry)
entries_of [] = []
entries_of ((i, w) ∷ m) = elim w.codemirror [
  | none ↦ entries_of m
  | some e ↦ (i, entry_of e w) ∷ entries_of m
]

collect_all-append :
    (lo : ℕ) (all : List (ℕ × Entry)) (m : List (ℕ × Widget))
    → Below lo all
    → Ascending lo m
    → collect_all all m ≡ all ++ entries_of m
unfolding collect_all add_cached
collect_all-append lo all [] b a = sym (append-nil all)
collect_all-append lo all ((i, w) ∷ m) b a = elim (Option-cases w.codemirror) [
  | inl missing ↦
      rw (missing, add_cached)
        (collect_all-append (suc i) all m (Below-weaken all (omega arith) b) a.1)
  | inr (e, has) ↦
      rw (has, add_cached, put-above i (entry_of e w) all (Below-weaken all a.0 b))
        (collect_all-append (suc i) (all ++ (i, entry_of e w) ∷ []) m
            (Below-append (suc i) i (entry_of e w) all (omega arith)
              (Below-weaken all (omega arith) b))
            a.1
          ∙ append_assoc all ((i, entry_of e w) ∷ []) (entries_of m))
]

pub cached_workload-entries_of :
    (r : Registry) → IsValid r → cached_workload r ≡ entries_of r.query_widget_map
unfolding cached_workload
cached_workload-entries_of r v = collect_all-append 0 [] r.query_widget_map tt v.ascending
