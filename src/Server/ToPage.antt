-- ===== src/Server/ToPage.antt =====
-- The rates on their way from the server to the page that polls for them.
pub mod Stale
use mathlib.Core.Path.{subst}
use mathlib.Core.List.{Permᴰ}
use mathlib.Core.List.Permᴰ
use workload_simulator.Prelude.{
  ℕ, ℤ, pos, ◌+◌, ◌+ℤ◌, ◌≤◌, ◌==◌, ◌≡◌, ◌≢◌, refl, sym, ap, ap₂, ◌∙◌, Bool, true, false, Option,
  none, some, List, [], ◌∷◌, arith, All, map, Bool-cases, Option-cases, inl, inr, if◌then◌else◌,
  ==_iff,
}
use workload_simulator.Js.{Scalar, num, bool, truthy, to_text, num_add}
use workload_simulator.Js.Parse.{Text, Num, int, text_eq, parse_float, show}
use workload_simulator.Js.Parse.Laws.{text_eq_self, parse_float-show_ℕ}
use workload_simulator.Js.Index.{find, put}
use workload_simulator.Js.Index.Laws.{find-put}
use workload_simulator.Js.Index.Dense.{All-Permᴰ, All-imp}
use workload_simulator.Js.Names
use workload_simulator.Js.Names.Laws.{Lacks}
use workload_simulator.Go.{itoa}
use workload_simulator.Go.Laws.{itoa-injective, text_eq-itoa}
use workload_simulator.Widget.{Widget}
use workload_simulator.Registry.{Registry}
use workload_simulator.Registry.Invariant.{IsValid}
use workload_simulator.Workload.{get_workload}
use workload_simulator.Workload.Saving.{sent, find-get_workload}
use workload_simulator.Page.{Page, Player}
use workload_simulator.Graph.{record_point}
use workload_simulator.Alerts.{and_then, done, threw}
use workload_simulator.Player.{
  set_timer, record_totals, poll_answered, Stats, show_rates, show_rate, total_rates,
  on_workload_receive,
}
use workload_simulator.Player.Consistent.{poll_goes_on}
use workload_simulator.Player.Polling.{going_on, loops, Known, on_workload_receive-running, pos-+ℤ}
use workload_simulator.Server.{QueryData, Task, App}
use workload_simulator.Server.Dispatch.{IsTaskOf}
use workload_simulator.Server.FromPage.{IsAsked}
use workload_simulator.Server.Monitor.{Report, initial, handle_stats}
use workload_simulator.Server.Monitor.Totals.{entries}
use workload_simulator.Server.Pool.{Pool, Shared, new_worker, Label, Run, start, History}
use workload_simulator.Server.Pool.Names.{HasName, IsNamed, Run-IsNamed}
use workload_simulator.Server.Pool.Reports.{HasRate, History-HasRate}

-- Numbers by widget, as the server writes their keys, and as the page reads them.
abbrev pub encode : List (ℕ × ℕ) → List (Text × ℕ)
encode [] = []
encode ((i, v) ∷ rates) = (itoa i, v) ∷ encode rates

abbrev pub scalars : List (ℕ × ℕ) → List (ℕ × Scalar)
scalars [] = []
scalars ((i, v) ∷ rates) = (i, num (int (pos v))) ∷ scalars rates

-- The answer of the server with the numbers that the page reads off its texts.
abbrev pub received : Option Report → App → List (ℕ × ℕ) → List (ℕ × ℕ) → Stats
received report app rates rdone = record {
  running = bool (handle_stats report app).running;
  error = none;
  stats = scalars rates;
  rdone = scalars rdone;
}

abbrev pub sum_of : List (ℕ × ℕ) → ℕ
sum_of [] = 0
sum_of ((i, v) ∷ rates) = v + sum_of rates

total_rates-scalars :
    (n : ℕ) (rates : List (ℕ × ℕ))
    → total_rates (int (pos n)) (scalars rates) ≡ int (pos (n + sum_of rates))
unfolding total_rates to_text show
total_rates-scalars n [] = ap (λ (k : ℕ). int (pos k)) (omega arith)
total_rates-scalars n ((i, v) ∷ rates) =
    ap (λ t. total_rates t (scalars rates))
      (ap (num_add (int (pos n))) (parse_float-show_ℕ v) ∙ ap int (pos-+ℤ n v))
    ∙ total_rates-scalars (n + v) rates
    ∙ ap (λ (k : ℕ). int (pos k)) (omega arith)

-- The name of a model is the id of a widget of the page.
record IsId (m : List (ℕ × Widget)) (k : Text) : Type 0 where
  id : ℕ
  named : k ≡ itoa id
  there : find id m ≢ none

Known-encode :
    (knob : Scalar → Text → Text) (m : List (ℕ × Widget)) (rates : List (ℕ × ℕ))
    → All (λ (t : Text × ℕ). IsId m t.0) (encode rates)
    → Known knob (scalars rates) m
Known-encode knob m [] a = tt
Known-encode knob m ((i, v) ∷ rates) a = (
  elim (Option-cases (find i m)) [
    | inl missing ↦ elim (a.0.there (rw (sym (itoa-injective i a.0.id a.0.named)) missing)) [ ]
    | inr found ↦ found
  ],
  Known-encode knob m rates a.1,
)

module _ (P : Text → Type 0) where
  HasName-new_worker :
      (tasks : List Task)
      → All (λ (t : Task). P t.model_id) tasks
      → All (HasName P) (map new_worker tasks)
  unfolding new_worker
  HasName-new_worker [] a = tt
  HasName-new_worker (t ∷ tasks) a = (a.0, HasName-new_worker tasks a.1)

abbrev fresh_shared : Shared
fresh_shared = record { kills = []; monitor = initial; pending = none }

-- The workers of a play and what they share before the play, on a server that was just started.
abbrev pub first_play : List Task → Pool
first_play tasks = start tasks (record { workers = []; shared = fresh_shared })

first_play-IsNamed :
    (P : Text → Type 0) (tasks : List Task)
    → All (λ (t : Task). P t.model_id) tasks
    → IsNamed P (first_play tasks)
unfolding start
first_play-IsNamed P tasks a = record {
  workers = HasName-new_worker P tasks a;
  rates = tt;
  waiting = λ r e. cc;
}

IsAsked-IsId :
    (unmarshal_query : Text → QueryData × Bool) (r : Registry) (m : List (ℕ × Widget)) (t : Task)
    → IsValid r
    → ((i : ℕ) → find i r.query_widget_map ≢ none → find i m ≢ none)
    → IsTaskOf unmarshal_query (IsAsked unmarshal_query r) t
    → IsId m t.model_id
IsAsked-IsId unmarshal_query r m t valid kept asked = record {
  id = asked.id;
  named = asked.filed;
  there = kept asked.id (λ missing.
      let nothing : sent (find asked.id r.query_widget_map) ≡ none = ap sent missing in
      cc (find-get_workload r asked.id valid, nothing, asked.sent));
}

module _ (knob : Scalar → Text → Text) where
  -- The report of a server that was just started and played a workload of a valid page, whatever its
  -- workers, its ticks, its polls and its pauses did before it, makes a page that plays and still has
  -- those widgets, with a poll under way, add one point to its graph, the sum of the rates in the
  -- report, and poll on, in whatever order the report names the models.
  pub on_workload_receive-handle_stats :
      (unmarshal_query : Text → QueryData × Bool) (r : Registry) (tasks : List Task)
      (current_workers : ℤ) (ls : List Label) (q : Pool) (rep : Report) (app : App)
      (rates rdone : List (ℕ × ℕ)) (p : Page)
      → IsValid r
      → All (IsTaskOf unmarshal_query (IsAsked unmarshal_query r)) tasks
      → Run current_workers ls (first_play tasks) q
      → q.shared.pending ≡ some rep
      → Permᴰ (entries (handle_stats (some rep) app).stats) (encode rates)
      → ((i : ℕ) → find i r.query_widget_map ≢ none → find i p.registry.query_widget_map ≢ none)
      → p.player.running ≡ 1
      → 1 ≤ p.player.polls
      → (s : Page) × (on_workload_receive knob (received (some rep) app rates rdone) p ≡ done s)
        × (loops s ≡ loops p)
        × (s.player.qps_points
            ≡ record_point p.livemode (int (pos (sum_of rates))) p.player.qps_points)
  unfolding handle_stats record_point
  on_workload_receive-handle_stats unmarshal_query r tasks current_workers ls q rep app rates rdone
        p valid asked run waits read kept running some_poll =
      let named : All (λ (t : Text × ℕ). IsId p.registry.query_widget_map t.0) rep.request_per_s =
        (Run-IsNamed (IsId p.registry.query_widget_map) run (
            first_play-IsNamed (IsId p.registry.query_widget_map) tasks (
              All-imp (IsTaskOf unmarshal_query (IsAsked unmarshal_query r))
                (λ (t : Task). IsId p.registry.query_widget_map t.model_id) tasks
                (λ t a. IsAsked-IsId unmarshal_query r p.registry.query_widget_map t valid kept a)
                asked))).waiting
          rep waits in
      let known : Known knob (scalars rates) p.registry.query_widget_map =
        Known-encode knob p.registry.query_widget_map rates
          (All-Permᴰ (λ (t : Text × ℕ). IsId p.registry.query_widget_map t.0) read named) in
      let (s, e, many, points) =
        on_workload_receive-running knob (received (some rep) app rates rdone) p running some_poll
          (unfold handle_stats truthy in refl) known in
      (
        s,
        e,
        many,
        points
            ∙ ap (λ (n : Num). record_point p.livemode n p.player.qps_points)
                (total_rates-scalars 0 rates ∙ ap (λ (n : ℕ). int (pos n)) (omega arith)),
      )
