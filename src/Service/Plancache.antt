-- ===== src/Service/Plancache.antt =====
-- The live rates of the earlier server: what each look at the cached plans of the database makes of
-- them (stress/plancache.py, `save_plancache_loop`). A rate is kept as the number of runs since the
-- last look, which the source divides by the time between the two.
pub mod Idle
use workload_simulator.Prelude.{
  ℕ, ◌+◌, ℤ, pos, ◌-ℤ◌, eq_ℤ, Bool, true, false, not, ◌||◌, Option, none, some, List, [], ◌∷◌,
  if◌then◌else◌,
}
use workload_simulator.Js.Parse.{Text, text_eq}
use workload_simulator.Js.Names

-- A row of `show plancache`
pub record Row : Type 0 where
  pub query_text : Text
  pub database : Text
  pub commits : Option ℕ
  pub rollbacks : Option ℕ

abbrev pub or_zero : Option ℕ → ℕ
or_zero none = 0
or_zero (some n) = n

abbrev pub execs : Row → ℕ
execs r = or_zero r.commits + or_zero r.rollbacks

-- `prev_pc`, and the rates, which the server hands out.
pub record Plancache : Type 0 where
  pub prev_pc : List (Text × ℕ)
  pub stats : List (Text × ℤ)

abbrev pub is_known : Text → List (Text × ℤ) → Bool
is_known query stats = elim (Names.find query stats) [ none ↦ false | some _ ↦ true ]

-- The rates after a row whose query ran `prev` times up to the last look, if it was seen then.
abbrev pub stats_of : Row → Option ℕ → List (Text × ℤ) → List (Text × ℤ)
stats_of r none stats = stats
stats_of r (some prev) stats =
    if is_known r.query_text stats || not (eq_ℤ (pos (execs r)) (pos prev))
    then Names.put r.query_text (pos (execs r) -ℤ pos prev) stats
    else stats

-- One round of the loop over the rows, for the database `memsql_db` of the settings.
unfoldable pub take_row : Text → Row → Plancache → Plancache
take_row memsql_db r c =
    if text_eq r.database memsql_db
    then record {
      prev_pc = Names.put r.query_text (execs r) c.prev_pc;
      stats = stats_of r (Names.find r.query_text c.prev_pc) c.stats;
    }
    else c

-- One look
unfoldable pub take_rows : Text → List Row → Plancache → Plancache
take_rows memsql_db [] c = c
take_rows memsql_db (r ∷ rows) c = take_rows memsql_db rows (take_row memsql_db r c)

-- Look after look, from nothing
unfoldable pub look_all : Text → List (List Row) → Plancache → Plancache
look_all memsql_db [] c = c
look_all memsql_db (rows ∷ looks) c = look_all memsql_db looks (take_rows memsql_db rows c)
