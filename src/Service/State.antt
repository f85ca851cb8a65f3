-- ===== src/Service/State.antt =====
-- The globals of the earlier server (stress/server.py) with the settings of the database, and its
-- pool of worker processes (stress/worker.py, `WorkerPool`).
use workload_simulator.Prelude.{
  ℕ, ◌==◌, ℤ, pos, eq_ℤ, sub_ℕ, Bool, true, false, ◌&&◌, Option, none, some, List, [], ◌∷◌,
  if◌then◌else◌,
}
use workload_simulator.Js.Parse.{Text, codes, text_eq}
use workload_simulator.Go.{unsigned}
use workload_simulator.QueryTable.{Globals, QueryObject, is_blank}

-- `lstrip` and `rstrip`
unfoldable pub lstrip : Text → Text
lstrip [] = []
lstrip (c ∷ s) = let later = lstrip s in if is_blank c then later else c ∷ s

unfoldable pub rstrip : Text → Text
rstrip [] = []
rstrip (c ∷ s) =
    let later = rstrip s in
    elim later [ [] ↦ if is_blank c then [] else c ∷ [] | d ∷ t ↦ c ∷ d ∷ t ]

abbrev pub strip : Text → Text
strip s = rstrip (lstrip s)

-- `int(s)`, with `none` for its ValueError
abbrev pub negative : Option ℕ → Option ℤ
negative none = none
negative (some n) = some (sub_ℕ 0 n)

abbrev pub positive : Option ℕ → Option ℤ
positive none = none
positive (some n) = some (pos n)

abbrev pub signed : Text → Option ℤ
signed [] = none
signed (c ∷ s) =
    if c == b'-'
    then negative (unsigned s)
    else if c == b'+'
    then positive (unsigned s)
    else positive (unsigned (c ∷ s))

unfoldable pub int_of : Text → Option ℤ
int_of s = signed (strip s)

-- `Settings`
pub record Settings : Type 0 where
  pub memsql_host : Option Text
  pub memsql_port : Option ℤ
  pub memsql_user : Option Text
  pub memsql_pass : Option Text
  pub memsql_db : Option Text
  pub workers : Option ℤ

abbrev pub no_settings : Settings
no_settings = record {
  memsql_host = none;
  memsql_port = none;
  memsql_user = none;
  memsql_pass = none;
  memsql_db = none;
  workers = none;
}

abbrev pub eq_text : Option Text → Option Text → Bool
eq_text none none = true
eq_text (some s) (some t) = text_eq s t
eq_text _ _ = false

abbrev pub eq_int : Option ℤ → Option ℤ → Bool
eq_int none none = true
eq_int (some m) (some n) = eq_ℤ m n
eq_int _ _ = false

-- `get_dict` of both is equal.
abbrev pub eq_settings : Settings → Settings → Bool
eq_settings a b =
    eq_text a.memsql_host b.memsql_host
    && eq_int a.memsql_port b.memsql_port
    && eq_text a.memsql_user b.memsql_user
    && eq_text a.memsql_pass b.memsql_pass
    && eq_text a.memsql_db b.memsql_db
    && eq_int a.workers b.workers

-- `is_str` says of which texts the JSON library makes a `str`; those are stripped.
module _ (is_str : Text → Bool) where
  abbrev pub setting_of : Text → Text
  setting_of s = if is_str s then strip s else s

  -- One round of the loop of `Settings.__init__`, with `none` for a ValueError. Other keys are passed
  -- over.
  unfoldable pub set_setting : Text → Text → Settings → Option Settings
  set_setting key setting s =
      if text_eq key (codes "memsql_host")
      then some (record s { memsql_host = some (setting_of setting) })
      else if text_eq key (codes "memsql_user")
      then some (record s { memsql_user = some (setting_of setting) })
      else if text_eq key (codes "memsql_pass")
      then some (record s { memsql_pass = some (setting_of setting) })
      else if text_eq key (codes "memsql_db")
      then some (record s { memsql_db = some (setting_of setting) })
      else if text_eq key (codes "memsql_port")
      then elim (int_of (setting_of setting)) [
        | none ↦ none
        | some n ↦ some (record s { memsql_port = some n })
      ]
      else if text_eq key (codes "workers")
      then elim (int_of (setting_of setting)) [
        | none ↦ none
        | some n ↦ some (record s { workers = some n })
      ]
      else some s

  unfoldable pub set_settings : List (Text × Text) → Settings → Option Settings
  set_settings [] s = some s
  set_settings ((key, setting) ∷ d) s = elim (set_setting key setting s) [
    | none ↦ none
    | some t ↦ set_settings d t
  ]

-- `WorkerPool`: `workload` is the one sent last; `running` is what its processes carry out.
pub record WorkerPool : Type 0 where
  pub nworkers : ℕ
  pub settings_dict : Settings
  pub workload : Option (List QueryObject)
  pub paused : Bool
  pub running : Option (List QueryObject)

-- The globals of server.py, and those of query_table.py, by which queries are made.
pub record Server : Type 0 where
  pub g_workload : Option (List QueryObject)
  pub g_workers : Option WorkerPool
  pub g_settings : Settings
  pub stat_check_count : ℕ
  pub query_globals : Globals
