-- ===== src/Server/Dispatch.antt =====
-- Which workers a play starts.
use mathlib.Core.Path.{subst}
use mathlib.Core.Option.{some-injective}
use workload_simulator.Prelude.{
  ℕ, zero, suc, ℤ, pos, ◌+◌, ◌≤◌, ◌≡◌, ◌≢◌, refl, sym, ap, ◌∙◌, Bool, true, false, none, some, List,
  [], ◌∷◌, ◌++◌, arith, All, All-append, length, length-append, Bool-cases, Option-cases, inl, inr,
  append-nil,
}
use workload_simulator.Js.Parse.{Text, text_eq}
use workload_simulator.Js.Parse.Laws.{eq_of_text_eq}
use workload_simulator.Js.Names
use workload_simulator.Js.Names.Laws.{Lacks, find-put-none, length-put, All-put}
use workload_simulator.Go.{atoi, itoa}
use workload_simulator.Server.{
  ModelData, QueryData, ServerSettings, ModelInput, Task, App, model_input, read_models, task_of,
  spawn, create_file, start_workers, after_reading, handle_workload, body, Write,
}

module _ (unmarshal_query : Text → QueryData × Bool) (Asked : Text × ModelInput → Type 0) where
  -- An entry that can be read, to a model that is asked for.
  pub record IsGood (k : Text) (v : ModelData) : Type 0 where
    pub rate : ℤ
    pub reads : atoi v.qps ≡ some rate
    pub parses : (unmarshal_query v.query).1 ≡ false
    pub asked : Asked (k, model_input unmarshal_query v rate)

  abbrev pub Good : List (Text × ModelData) → Type 0
  Good work = All (λ t. IsGood t.0 t.1) work

  -- The loop over entries that can be read ends with models that are asked for, one under each key.
  pub record IsRead (work : List (Text × ModelData)) (wrk : List (Text × ModelInput))
      (out : List (Text × ModelInput)) : Type 0 where
    pub all_asked : All Asked out
    pub few : length out ≤ length wrk + length work
    pub covers : (k : Text) → Names.find k out ≡ none → Lacks k work × (Names.find k wrk ≡ none)

  pub read_models-IsRead :
      (work : List (Text × ModelData)) (wrk : List (Text × ModelInput)) (writes : List Write)
      → Good work
      → All Asked wrk
      → (out : List (Text × ModelInput)) × (read_models unmarshal_query work wrk writes
          ≡ record { models = some out; writes = writes })
        × IsRead work wrk out
  unfolding read_models
  read_models-IsRead [] wrk writes g a =
      (wrk, refl, record { all_asked = a; few = omega arith; covers = λ k h. (tt, h) })
  read_models-IsRead ((k, v) ∷ work) wrk writes (one, g) a =
      let model = model_input unmarshal_query v one.rate in
      let (out, e, r) =
        read_models-IsRead work (Names.put k model wrk) writes g
          (All-put Asked k model wrk one.asked a) in
      (
        out,
        rw (one.reads, one.parses, append-nil writes, read_models) e,
        record {
          all_asked = r.all_asked;
          few = omega (arith, r.few, length-put k model wrk);
          covers = λ j h.
              let (missing, put_missing) = r.covers j h in
              let (differs, before) = find-put-none j k model wrk put_missing in
              ((differs, missing), before);
        },
      )

  -- What a task was made of.
  abbrev pub IsTaskOf : Task → Type 0
  IsTaskOf t =
      Asked (t.model_id, record { name = t.model_name; input = t.model_input; qps = t.nrequests })

  pub find-Asked :
      (k : Text) (model : ModelInput) (wrk : List (Text × ModelInput))
      → All Asked wrk
      → Names.find k wrk ≡ some model
      → Asked (k, model)
  unfolding Names.find
  find-Asked k model [] a e = cc
  find-Asked k model ((j, u) ∷ wrk) a e = elim (Bool-cases (text_eq k j)) [
    | inl same ↦
        subst (λ l. Asked (l, model)) (sym (eq_of_text_eq k j same))
          (subst (λ u. Asked (j, u)) (some-injective u model (rw same at e)) a.0)
    | inr other ↦ find-Asked k model wrk a.1 (rw other at e)
  ]

  module _ (draw : ℕ → ℕ) (batch_id : Text) (settings : ServerSettings)
      (wrk : List (Text × ModelInput)) (a : All Asked wrk)
      (drawn : (i : ℕ) → Names.find (itoa (draw i)) wrk ≢ none) where
    -- If every draw finds a model, every worker is started, with one of the models.
    spawn-runs :
        (n i : ℕ) (tasks : List Task)
        → All IsTaskOf tasks
        → (started : List Task) × (spawn draw batch_id settings wrk n i tasks ≡ (started, false))
          × (length started ≡ length tasks + n)
          × All IsTaskOf started
    unfolding spawn
    spawn-runs zero i tasks t = (tasks, refl, omega arith, t)
    spawn-runs (suc n) i tasks t = elim (Option-cases (Names.find (itoa (draw i)) wrk)) [
      | inl missing ↦ absurd (drawn i missing)
      | inr (model, found) ↦
          let task = task_of batch_id settings i (itoa (draw i)) model in
          let (started, e, many, all) = spawn-runs n (suc i) (tasks ++ task ∷ []) (
            All-append IsTaskOf tasks (task ∷ []) t
              (find-Asked (itoa (draw i)) model wrk a found, tt)) in
          (started, rw (found, spawn) e, omega (arith, many, length-append tasks (task ∷ [])), all)
    ]

  -- A play whose entries can be read, with an entry under every number that may be drawn, ends well.
  module _ (draw : ℕ → ℕ) (work : List (Text × ModelData)) (settings : ServerSettings) (nw : ℕ)
      (workers : atoi settings.workers ≡ some (pos nw)) (good : Good work)
      (covered : (i : ℕ) → ¬ Lacks (itoa (draw i)) work) where
    start_workers-runs :
        (batch_id : Text) (wrk : List (Text × ModelInput)) (app : App)
        → IsRead work [] wrk
        → (started : List Task) × (start_workers draw batch_id settings wrk [] app ≡ record {
          app = record app { current_workers = pos nw };
          writes = body true ∷ [];
          tasks = started;
          panicked = false;
        })
          × (length started ≡ nw)
          × All IsTaskOf started
    unfolding start_workers Names.find
    start_workers-runs batch_id [] app r = absurd (covered 0 (r.covers (itoa (draw 0)) refl).0)
    start_workers-runs batch_id (w ∷ wrk) app r =
        let (started, e, many, all) =
          spawn-runs draw batch_id settings (w ∷ wrk) r.all_asked
            (λ i missing. covered i (r.covers (itoa (draw i)) missing).0) nw 0 [] tt in
        (started, rw (workers, start_workers, e) refl, omega (arith, many), all)

    pub handle_workload-runs :
        (batch_id : Text) (created : Bool) (app : App)
        → (started : List Task) × (handle_workload unmarshal_query draw true
              (some work)
              settings
              batch_id
              created
              app
            ≡ record {
              app = record (create_file batch_id created app) { current_workers = pos nw };
              writes = body true ∷ [];
              tasks = started;
              panicked = false;
            })
          × (length started ≡ nw)
          × All IsTaskOf started
    unfolding handle_workload
    handle_workload-runs batch_id created app =
        let (wrk, e, r) = read_models-IsRead work [] [] good tt in
        let (started, ran, many, all) =
          start_workers-runs batch_id wrk (create_file batch_id created app) r in
        (started, ap (after_reading draw settings batch_id created app) e ∙ ran, many, all)

  -- The first draw finds no model.
  spawn-panics :
      (draw : ℕ → ℕ) (batch_id : Text) (settings : ServerSettings) (wrk : List (Text × ModelInput))
      (n i : ℕ) (tasks : List Task)
      → 1 ≤ n
      → Names.find (itoa (draw i)) wrk ≡ none
      → spawn draw batch_id settings wrk n i tasks ≡ (tasks, true)
  unfolding spawn
  spawn-panics draw batch_id settings wrk zero i tasks h missing = absurd (omega arith)
  spawn-panics draw batch_id settings wrk (suc n) i tasks h missing = rw (missing, spawn) refl

  pub start_workers-panics :
      (draw : ℕ → ℕ) (batch_id : Text) (settings : ServerSettings) (nw : ℕ)
      (wrk : List (Text × ModelInput)) (app : App)
      → atoi settings.workers ≡ some (pos nw)
      → 1 ≤ nw
      → wrk ≢ []
      → Names.find (itoa (draw 0)) wrk ≡ none
      → start_workers draw batch_id settings wrk [] app ≡ record {
        app = record app { current_workers = pos nw };
        writes = [];
        tasks = [];
        panicked = true;
      }
  unfolding start_workers
  start_workers-panics draw batch_id settings nw [] app workers some_work ne missing =
      absurd (ne refl)
  start_workers-panics draw batch_id settings nw (w ∷ wrk) app workers some_work ne missing =
      rw
        (
          workers,
          start_workers,
          spawn-panics draw batch_id settings (w ∷ wrk) nw 0 [] some_work missing,
        )
        refl
