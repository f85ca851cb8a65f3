-- ===== src/Start/Laws.antt =====
-- Settings that the browser keeps are read back by the next page.
use workload_simulator.Prelude.{
  ℤ, ◌≡◌, refl, sym, ap, ap₂, ◌∙◌, Bool, true, false, none, some, List, [], ◌∷◌, ◌++◌, append_assoc,
  All, if◌then◌else◌, Bool-cases, inl, inr,
}
use workload_simulator.Js.{Scalar, num, str, to_text}
use workload_simulator.Js.Names
use workload_simulator.Js.Names.{put-fresh, find-put_other}
use workload_simulator.Js.Parse.{Text, int, text_eq}
use workload_simulator.Js.Parse.Laws.{text_eq_self}
use workload_simulator.Page.{Page, SettingsMap, Storage}
use workload_simulator.Settings.{
  max_key, read_inputs, update_settings, json_map, json, set_number_input, write_inputs, val_text,
  reload_dial_max_value, or_undefined, load_settings, load_cached_settings, cache_settings,
  get_settings,
}

-- No two inputs have one id, and none has the id of the maximum.
abbrev pub Separate : List (Text × Text) → Type 0
Separate [] = Unit
Separate ((k, _) ∷ inputs) =
    All (λ t. text_eq t.0 k ≡ false) inputs × (text_eq max_key k ≡ false) × Separate inputs

-- The two lists have inputs with the same ids in the same order.
pub data SameIds : List (Text × Text) → List (Text × Text) → Type 0 where
  no_inputs : SameIds [] []
  input :
      {k v w : Text} {ins outs : List (Text × Text)}
      → SameIds ins outs
      → SameIds ((k, v) ∷ ins) ((k, w) ∷ outs)

abbrev entries : List (Text × Text) → SettingsMap
entries [] = []
entries ((k, v) ∷ inputs) = (k, str v) ∷ entries inputs

abbrev Unseen {ℓ} : {V : Type ℓ} → List (Text × V) → List (Text × Text) → Type ℓ
Unseen m inputs = All (λ t. Names.find t.0 m ≡ none) inputs

Unseen-put {ℓ} :
    {V : Type ℓ} (k : Text) (v : V) (m : List (Text × V)) (inputs : List (Text × Text))
    → All (λ t. text_eq t.0 k ≡ false) inputs
    → Unseen m inputs
    → Unseen (Names.put k v m) inputs
Unseen-put k v m [] a u = tt
Unseen-put k v m (t ∷ ts) (h, a) (e, u) = (find-put_other t.0 k v m h e, Unseen-put k v m ts a u)

module _ (m : Scalar) where
  -- What the form is read as: an entry for each input, and the maximum.
  read_inputs-entries :
      (inputs : List (Text × Text)) (s : SettingsMap)
      → Separate inputs
      → Unseen s inputs
      → Names.find max_key s ≡ none
      → Names.put max_key m (read_inputs inputs s) ≡ s ++ (entries inputs ++ (max_key, m) ∷ [])
  unfolding read_inputs
  read_inputs-entries [] s d u e = put-fresh max_key m s e
  read_inputs-entries ((k, v) ∷ inputs) s (a, b, d) (missing, u) e =
      read_inputs-entries inputs (Names.put k (str v) s) d (Unseen-put k (str v) s inputs a u)
        (find-put_other max_key k (str v) s b e)
      ∙ ap (λ l. l ++ (entries inputs ++ (max_key, m) ∷ [])) (put-fresh k (str v) s missing)
      ∙ append_assoc s ((k, str v) ∷ []) (entries inputs ++ (max_key, m) ∷ [])

json_map-entries :
    (n : ℤ) (inputs : List (Text × Text))
    → json_map (entries inputs ++ (max_key, num (int n)) ∷ [])
      ≡ entries inputs ++ (max_key, num (int n)) ∷ []
unfolding json_map json
json_map-entries n [] = refl
json_map-entries n ((k, v) ∷ inputs) = ap (λ l. (k, str v) ∷ l) (json_map-entries n inputs)

assign-append :
    (k v : Text) (done todo : List (Text × Text))
    → Names.find k done ≡ none
    → Names.assign k v (done ++ todo) ≡ done ++ Names.assign k v todo
unfolding Names.assign Names.find
assign-append k v [] todo e = refl
assign-append k v ((j, w) ∷ done) todo e = elim (Bool-cases (text_eq k j)) [
  | inl same ↦ cc (rw same at e)
  | inr other ↦ rw other (ap (λ l. (j, w) ∷ l) (assign-append k v done todo (rw other at e)))
]

assign-head :
    (k v w : Text) (todo : List (Text × Text)) → Names.assign k v ((k, w) ∷ todo) ≡ (k, v) ∷ todo
unfolding Names.assign
assign-head k v w todo = rw (text_eq_self k) refl

-- Each entry is written into its input; the entry of the maximum has none.
write_inputs-entries :
    (x : Scalar) (done ins outs : List (Text × Text))
    → SameIds ins outs
    → Separate ins
    → Unseen done ins
    → Names.find max_key done ≡ none
    → write_inputs (entries ins ++ (max_key, x) ∷ []) (done ++ outs) ≡ done ++ ins
unfolding write_inputs val_text Names.assign to_text
write_inputs-entries x done [] _ no_inputs d u e = assign-append max_key (val_text x) done [] e
write_inputs-entries x done ((k, v) ∷ ins) _ (input {w = w} {outs = outs} same) (a, b, d)
      (missing, u) e =
    ap (write_inputs (entries ins ++ (max_key, x) ∷ [])) (
      assign-append k v done ((k, w) ∷ outs) missing
      ∙ ap (λ l. done ++ l) (assign-head k v w outs)
      ∙ sym (append_assoc done ((k, v) ∷ []) outs)
      ∙ ap (λ l. l ++ outs) (sym (put-fresh k v done missing)))
    ∙ write_inputs-entries x (Names.put k v done) ins outs same d (Unseen-put k v done ins a u)
        (find-put_other max_key k v done b e)
    ∙ ap (λ l. l ++ ins) (put-fresh k v done missing)
    ∙ append_assoc done ((k, v) ∷ []) ins

set_number_input-SameIds :
    (x : Scalar) (ins outs : List (Text × Text))
    → SameIds ins outs
    → SameIds ins (set_number_input x outs)
unfolding set_number_input
set_number_input-SameIds x [] _ no_inputs = no_inputs
set_number_input-SameIds x (_ ∷ ins) _ (input {outs = outs} same) =
    input (set_number_input-SameIds x ins outs same)

Unseen-nil : (V : Type 0) (inputs : List (Text × Text)) → Unseen {V = V} [] inputs
unfolding Names.find
Unseen-nil V [] = tt
Unseen-nil V (_ ∷ inputs) = (refl, Unseen-nil V inputs)

-- The settings that a page reads off its form.
abbrev pub read : Page → SettingsMap
read p = Names.put max_key p.form.dial_max_value (read_inputs p.form.inputs [])

json_map-read :
    (p : Page) (n : ℤ)
    → p.form.dial_max_value ≡ num (int n)
    → Separate p.form.inputs
    → json_map (read p) ≡ entries p.form.inputs ++ (max_key, num (int n)) ∷ []
unfolding Names.find
json_map-read p n limit d =
    ap json_map (
      ap (λ x. Names.put max_key x (read_inputs p.form.inputs [])) limit
      ∙ read_inputs-entries (num (int n)) p.form.inputs [] d (Unseen-nil _ p.form.inputs) refl)
    ∙ json_map-entries n p.form.inputs

find-entries :
    (x : Scalar) (inputs : List (Text × Text))
    → Separate inputs
    → Names.find max_key (entries inputs ++ (max_key, x) ∷ []) ≡ some x
unfolding Names.find text_eq
find-entries x [] d = refl
find-entries x ((k, v) ∷ inputs) (a, b, d) =
    ap (λ t. if t then some (str v) else Names.find max_key (entries inputs ++ (max_key, x) ∷ [])) b
    ∙ find-entries x inputs d

module _ (knob : Scalar → Text → Text) where
  load_settings-read :
      (p q : Page) (n : ℤ)
      → p.form.dial_max_value ≡ num (int n)
      → Separate p.form.inputs
      → SameIds p.form.inputs q.form.inputs
      → ((load_settings knob (json_map (read p)) q).form.inputs ≡ p.form.inputs)
        × ((load_settings knob (json_map (read p)) q).form.dial_max_value ≡ num (int n))
  unfolding load_settings update_settings reload_dial_max_value Names.find
  load_settings-read p q n limit d same =
      let saved = json_map-read p n limit d in
      let v = or_undefined (Names.find max_key (json_map (read p))) in
      (
        ap (λ s. write_inputs s (set_number_input v q.form.inputs)) saved
            ∙ write_inputs-entries (num (int n)) [] p.form.inputs (set_number_input v q.form.inputs)
                (set_number_input-SameIds v p.form.inputs q.form.inputs same) d
                (Unseen-nil _ p.form.inputs) refl,
        ap (λ s. or_undefined (Names.find max_key s)) saved
            ∙ ap or_undefined (find-entries (num (int n)) p.form.inputs d),
      )

  selected :
      (s : SettingsMap) (live : Bool) (old : Storage)
      → (if live
          then (if live
              then record old { settings_cache_live = some s }
              else record old { settings_cache = some s }).settings_cache_live
          else (if live
              then record old { settings_cache_live = some s }
              else record old { settings_cache = some s }).settings_cache)
        ≡ some s
  selected s true old = refl
  selected s false old = refl

  -- The inputs of the settings form and the maximum of the dials, read and kept by one page, are those
  -- of the next page of the same mode when it has loaded what was kept, provided that the maximum is a
  -- number, that the form has the same ids in both, and that no two of them are equal nor the key of
  -- the maximum.
  pub load_cached_settings-cache_settings :
      (p q : Page) (n : ℤ)
      → p.form.dial_max_value ≡ num (int n)
      → Separate p.form.inputs
      → SameIds p.form.inputs q.form.inputs
      → q.livemode ≡ p.livemode
      → q.storage ≡ (cache_settings (update_settings p)).storage
      → ((load_cached_settings knob q).form.inputs ≡ p.form.inputs)
        × ((load_cached_settings knob q).form.dial_max_value ≡ num (int n))
  unfolding cache_settings get_settings update_settings load_cached_settings
  load_cached_settings-cache_settings p q n limit d same mode kept =
      let found =
        ap₂ (λ b (s : Storage). if b then s.settings_cache_live else s.settings_cache) mode kept
        ∙ selected (json_map (read p)) p.livemode p.storage in
      let loaded =
        ap (λ o. elim o as (λ _. Page) [ none ↦ q | some s ↦ load_settings knob s q ]) found in
      let (inputs, maximum) = load_settings-read p q n limit d same in
      (
        ap (λ (r : Page). r.form.inputs) loaded ∙ inputs,
        ap (λ (r : Page). r.form.dial_max_value) loaded ∙ maximum,
      )
