-- ===== src/Server/FromPage.antt =====
-- A play from the click on the page to the workers of the server.
use mathlib.Core.List.{Permᴰ}
use mathlib.Core.List.Permᴰ
use workload_simulator.Prelude.{
  ℕ, pos, ◌≤◌, ◌<◌, ◌==◌, ◌≡◌, refl, sym, ap, ◌∙◌, Bool, true, false, none, some, List, [], ◌∷◌,
  arith, All, length, Option-cases, inl, inr,
}
use workload_simulator.Js.{str, to_text}
use workload_simulator.Js.Parse.{Text, text_eq}
use workload_simulator.Js.Parse.Laws.{text_eq_self}
use workload_simulator.Js.Index.{find}
use workload_simulator.Js.Index.Dense.{All-Permᴰ, no_gap, find-each}
use workload_simulator.Workload.RoundTrip.{values, InRange, in_range}
use workload_simulator.Js.Names
use workload_simulator.Js.Names.Laws.{Lacks}
use workload_simulator.Go.{atoi, itoa, int_limit}
use workload_simulator.Go.Laws.{atoi-itoa, text_eq-itoa}
use workload_simulator.Registry.{Registry}
use workload_simulator.Registry.Invariant.{IsValid}
use workload_simulator.Workload.{Entry, get_workload}
use workload_simulator.Workload.Keys.{get_workload-Ascending, get_workload-Below, all_missing}
use workload_simulator.Server.{
  ModelData, QueryData, ServerSettings, ModelInput, Task, App, body, create_file, after_reading,
  handle_workload,
}
use workload_simulator.Server.Dispatch.{
  IsGood, Good, IsTaskOf, handle_workload-runs, read_models-IsRead, find-Asked,
  start_workers-panics,
}

-- What the server reads off the text of a workload that the page sends.
abbrev pub wire : List (ℕ × Entry) → List (Text × ModelData)
wire [] = []
wire ((i, e) ∷ es) = (itoa i, record { query = e.query; qps = to_text e.qps }) ∷ wire es

Lacks-wire : (k : ℕ) (es : List (ℕ × Entry)) → Lacks (itoa k) (wire es) → find k es ≡ none
unfolding find
Lacks-wire k [] l = refl
Lacks-wire k ((i, e) ∷ es) l = rw (sym (text_eq-itoa k i) ∙ l.0) (Lacks-wire k es l.1)

-- The model that is filed under a key comes from a query of the page.
pub record IsAsked (unmarshal_query : Text → QueryData × Bool) (r : Registry)
    (t : Text × ModelInput) : Type 0 where
  pub id : ℕ
  pub entry : Entry
  pub sent : find id (get_workload r) ≡ some entry
  pub filed : t.0 ≡ itoa id
  pub query :
      (t.1.name ≡ (unmarshal_query entry.query).0.model)
      × (t.1.input ≡ (unmarshal_query entry.query).0.input)
  pub rate : ℕ
  pub shown : entry.qps ≡ str (itoa rate)
  pub taken : t.1.qps ≡ pos rate

module _ (unmarshal_query : Text → QueryData × Bool) (r : Registry) (m : ℕ)
    (small : m < int_limit) where
  entry-IsGood :
      (i : ℕ) (e : Entry)
      → find i (get_workload r) ≡ some e
      → InRange m e
      → (unmarshal_query e.query).1 ≡ false
      → IsGood unmarshal_query
          (IsAsked unmarshal_query r)
          (itoa i)
          (record { query = e.query; qps = to_text e.qps })
  unfolding to_text
  entry-IsGood i e found (in_range n le shown) parses = record {
    rate = pos n;
    reads = ap (λ v. atoi (to_text v)) shown ∙ atoi-itoa n (omega arith);
    parses = parses;
    asked = record {
      id = i;
      entry = e;
      sent = found;
      filed = refl;
      query = (refl, refl);
      rate = n;
      shown = shown;
      taken = refl;
    };
  }

  wire-Good :
      (es : List (ℕ × Entry))
      → All (λ (t : ℕ × Entry). find t.0 (get_workload r) ≡ some t.1) es
      → All (InRange m) (values es)
      → All (λ (e : Entry). (unmarshal_query e.query).1 ≡ false) (values es)
      → Good unmarshal_query (IsAsked unmarshal_query r) (wire es)
  wire-Good [] f a p = tt
  wire-Good ((i, e) ∷ es) f a p = (entry-IsGood i e f.0 a.0 p.0, wire-Good es f.1 a.1 p.1)

module _ (unmarshal_query : Text → QueryData × Bool) (draw : ℕ → ℕ) (r : Registry)
    (work : List (Text × ModelData)) (settings : ServerSettings) (nw m : ℕ) (small : m < int_limit)
    (arrives : Permᴰ (wire (get_workload r)) work)
    (rates : All (InRange m) (values (get_workload r)))
    (parses : All (λ (e : Entry). (unmarshal_query e.query).1 ≡ false) (values (get_workload r)))
    (workers : atoi settings.workers ≡ some (pos nw)) where
  good : Good unmarshal_query (IsAsked unmarshal_query r) work
  good =
      All-Permᴰ
        (λ (t : Text × ModelData). IsGood unmarshal_query (IsAsked unmarshal_query r) t.0 t.1)
        arrives
        (wire-Good unmarshal_query r m small (get_workload r)
          (find-each 0 (get_workload r) (get_workload-Ascending r)) rates parses)

  kept_apart : (k : ℕ) → Lacks (itoa k) work → find k (get_workload r) ≡ none
  kept_apart k lacks = Lacks-wire k (get_workload r) (
      All-Permᴰ (λ (t : Text × ModelData). text_eq (itoa k) t.0 ≡ false) (Permᴰ.symm arrives) lacks)

  -- A play of a page that is valid and has a query under every id that it has given away, whose dials
  -- show numbers that the server can hold and whose queries it can read, is taken, in whatever order
  -- the server meets the entries and whatever it draws: the handler answers that the workload runs,
  -- it starts as many workers as the settings ask for, and each of them has a query of the page and
  -- the rate of its dial.
  pub handle_workload-get_workload :
      (batch_id : Text) (created : Bool) (app : App)
      → IsValid r
      → length (get_workload r) ≡ r.global_query_id
      → ((i : ℕ) → draw i < length (get_workload r))
      → (started : List Task) × (handle_workload unmarshal_query draw true
            (some work)
            settings
            batch_id
            created
            app
          ≡ record {
            app = record (create_file batch_id created app) { current_workers = pos nw };
            writes = body true ∷ [];
            tasks = started;
            panicked = false;
          })
        × (length started ≡ nw)
        × All (IsTaskOf unmarshal_query (IsAsked unmarshal_query r)) started
  handle_workload-get_workload batch_id created app valid every drawn =
      handle_workload-runs unmarshal_query (IsAsked unmarshal_query r) draw work settings nw workers
        good
        (λ i lacks.
          no_gap 0 r.global_query_id (draw i) (get_workload r) (get_workload-Ascending r)
            (get_workload-Below r valid) (omega (arith, every)) (omega arith)
            (omega (arith, drawn i, every)) (kept_apart (draw i) lacks))
        batch_id created app

  unfiled :
      (k : ℕ) (wrk : List (Text × ModelInput))
      → All (IsAsked unmarshal_query r) wrk
      → find k (get_workload r) ≡ none
      → Names.find (itoa k) wrk ≡ none
  unfiled k wrk a gone = elim (Option-cases (Names.find (itoa k) wrk)) [
    | inl missing ↦ missing
    | inr (model, found) ↦
        let asked =
          find-Asked unmarshal_query (IsAsked unmarshal_query r) (itoa k) model wrk a found in
        let same : (k == asked.id) ≡ true =
          sym (text_eq-itoa k asked.id)
          ∙ ap (λ t. text_eq (itoa k) t) (sym asked.filed)
          ∙ text_eq_self (itoa k) in
        absurd (ground (arith, asked.sent))
  ]

  -- If the page sends queries, but none under the number that is drawn first, as after a widget was
  -- closed or left empty, the handler panics: nothing is answered and no worker starts, but the number
  -- of workers is noted and the report file stays open.
  pub handle_workload-gap :
      (batch_id : Text) (created : Bool) (app : App)
      → 1 ≤ nw
      → 1 ≤ length (get_workload r)
      → find (draw 0) (get_workload r) ≡ none
      → handle_workload unmarshal_query draw true (some work) settings batch_id created app
        ≡ record {
          app = record (create_file batch_id created app) { current_workers = pos nw };
          writes = [];
          tasks = [];
          panicked = true;
        }
  unfolding handle_workload
  handle_workload-gap batch_id created app some_worker some_entry gone =
      let (wrk, e, read) =
        read_models-IsRead unmarshal_query (IsAsked unmarshal_query r) work [] [] good tt in
      ap (after_reading draw settings batch_id created app) e
      ∙ start_workers-panics unmarshal_query (IsAsked unmarshal_query r) draw batch_id settings nw
          wrk (create_file batch_id created app) workers some_worker
          (λ empty.
            let missing : (k : ℕ) → find k (get_workload r) ≡ none =
              λ k. kept_apart k (read.covers (itoa k) (rw empty (unfold Names.find in refl))).0 in
            absurd (omega (arith, some_entry, all_missing (get_workload r) missing)))
          (unfiled (draw 0) wrk read.all_asked gone)
