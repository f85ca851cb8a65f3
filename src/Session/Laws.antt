-- ===== src/Session/Laws.antt =====
-- What a session file and a reload of the page do to the widgets and to what the browser keeps.
use workload_simulator.Prelude.{
  ℕ, zero, suc, Bool, true, Option, List, Bool-cases, ◌≡◌, refl, ap, ◌∙◌, none, some, pos,
  Option-cases, inl, inr, ◌⊎◌, ◌+◌, false, eq_ℤ, All,
}
use workload_simulator.Js.{Scalar, num, eq_num, to_num}
use workload_simulator.Js.Parse.{Text, int}
use workload_simulator.Dial.{KnobKeeps}
use workload_simulator.Registry.Invariant.{
  IsValid, empty-IsValid, clear_query_widgets-empty, new_widget-IsValid, map-IsValid,
}
use workload_simulator.Registry.{Registry, clear_query_widgets}
use workload_simulator.Js.Index.{find}
use workload_simulator.Workload.{
  cached_workload, load_workload, parsed, load_slot, rounds, max_index,
}
use workload_simulator.Workload.Validity.{load_slot-IsValid}
use workload_simulator.Workload.RoundTrip.{values, InRange, load_workload-cached_workload}
use workload_simulator.Page.{Page, SettingsMap, Storage, play}
use workload_simulator.Settings.{
  get_settings, update_settings, cache_settings, load_settings, reload_dial_max_value, redial,
}
use workload_simulator.Alerts.{done, threw, create_error, notify, set_loading_status}
use workload_simulator.Player.{send_pause, with_player}
use workload_simulator.Session.{
  FileEntry, FileWorkload, Contents, read_session_file, invalid_file, cache_workload, load_into,
  slot_of, keys_of, all_select, load_file_from, load_file, partly_set, load_file_settings,
  load_session, handle_upload, add_widget, restore_workload, begin,
}

-- The entry of some index has no text for its query.
abbrev pub Lacks : List (ℕ × Option FileEntry) → Type 0
Lacks w = (i : ℕ) × (e : FileEntry) × (find i w ≡ some (some e)) × (e.query ≡ none)

slot_of-Lacks :
    (w : List (ℕ × Option FileEntry)) (i : ℕ) (o : Option (Option FileEntry))
    → find i w ≡ o
    → slot_of o ≡ none
    → Lacks w
slot_of-Lacks w i none at_i e = cc
slot_of-Lacks w i (some none) at_i e = cc
slot_of-Lacks w i (some (some entry)) at_i e = elim (Option-cases entry.query) [
  | inl no_text ↦ (i, entry, at_i, no_text)
  | inr (query, text) ↦ cc (rw text at e)
]

module _ (knob : Scalar → Text → Text) where
  load_settings-IsValid :
      (settings : SettingsMap) (p : Page)
      → IsValid p.registry
      → IsValid (load_settings knob settings p).registry
  unfolding load_settings update_settings reload_dial_max_value redial
  load_settings-IsValid settings p v =
      map-IsValid _ p.registry
        (λ k w o. record { own_id = o.own_id; own_close = o.own_close; has_editor = o.has_editor })
        v

  load_file_settings-cases :
      (selects : Text → Bool) (settings : SettingsMap) (p : Page)
      → (load_file_settings knob selects settings p ≡ done (load_settings knob settings p))
        ⊎ ((all_select selects settings ≡ false)
            × ((q : Page) × (load_file_settings knob selects settings p ≡ threw q)
                × (IsValid p.registry → IsValid q.registry)
                × (q.storage ≡ p.storage)))
  unfolding load_file_settings reload_dial_max_value redial
  load_file_settings-cases selects settings p = elim (Bool-cases (all_select selects settings)) [
    | inl whole ↦ inl (rw whole refl)
    | inr bad ↦ inr (
      bad,
      (
        partly_set knob selects settings p,
        rw bad refl,
        λ v.
            map-IsValid _ p.registry
              (λ k w o. record {
                own_id = o.own_id;
                own_close = o.own_close;
                has_editor = o.has_editor;
              })
              v,
        refl,
      ),
    )
  ]

  load_file_from-IsValid :
      (limit : Scalar) (n i : ℕ) (w : List (ℕ × Option FileEntry)) (r : Registry)
      → IsValid r
      → IsValid (load_file_from knob limit n i w r).1
        × (((load_file_from knob limit n i w r).0 ≡ true)
            ⊎ (((load_file_from knob limit n i w r).0 ≡ false) × Lacks w))
  unfolding load_file_from
  load_file_from-IsValid limit zero i w r v = (v, inl refl)
  load_file_from-IsValid limit (suc n) i w r v = elim (Option-cases (slot_of (find i w))) [
    | inl no_text ↦
        rw (no_text, load_file_from)
          (new_widget-IsValid knob limit r v, inr (refl, slot_of-Lacks w i (find i w) refl no_text))
    | inr (slot, text) ↦
        rw (text, load_file_from)
          (load_file_from-IsValid limit n (suc i) w (load_slot knob limit slot r)
            (load_slot-IsValid knob limit slot r v))
  ]

  load_file-cases :
      (w : FileWorkload) (p : Page)
      → IsValid p.registry
      → (r : Registry) × IsValid r
        × ((load_file knob w p ≡ done (record p { registry = r }))
            ⊎ ((load_file knob w p ≡ threw (record p { registry = r })) × Lacks w.indexed))
  unfolding load_file
  load_file-cases w p v =
      let start : IsValid (clear_query_widgets p.registry) =
        rw (clear_query_widgets-empty p.registry v) empty-IsValid in
      let (valid, way) =
        load_file_from-IsValid p.form.dial_max_value (rounds (max_index (keys_of w))) 0 w.indexed
          (clear_query_widgets p.registry) start in
      (
        _,
        valid,
        elim way [
          | inl whole ↦ inl (rw whole refl)
          | inr (stopped, lacks) ↦ inr (rw stopped refl, lacks)
        ],
      )

  -- A chosen file, with its settings and workload where it has them, is refused, and then the page has a
  -- message for it, which is not in the colour of an error, and is as it was otherwise, and the handler
  -- stops with an exception. Or it is read, and the handler stops with an exception, since a key of its
  -- settings is no selector or an entry has no text for its query; then the widgets are valid, and the
  -- browser keeps the workload that it kept. Or the handler ends, the widgets are valid, and the browser
  -- keeps the workload that the page then has.
  pub handle_upload-IsValid :
      (selects : Text → Bool) (c : Contents) (p : Page)
      → IsValid p.registry
      → ((read_session_file c ≡ none)
          × (handle_upload knob selects (some c) p ≡ threw (notify false invalid_file p)))
        ⊎ ((settings : SettingsMap) × (w : FileWorkload) × (q : Page) × (read_session_file c
              ≡ some (settings, w))
            × ((all_select selects settings ≡ false) ⊎ Lacks w.indexed)
            × (handle_upload knob selects (some c) p ≡ threw q)
            × IsValid q.registry
            × (q.storage.workload_cache ≡ p.storage.workload_cache))
        ⊎ ((q : Page) × (handle_upload knob selects (some c) p ≡ done q)
            × IsValid q.registry
            × (q.storage.workload_cache ≡ some (cached_workload q.registry)))
  unfolding handle_upload create_error load_session cache_workload cache_settings get_settings
      load_settings update_settings reload_dial_max_value eq_num to_num eq_ℤ
  handle_upload-IsValid selects c p v = elim (Option-cases (read_session_file c)) [
    | inl refused ↦ inl (refused, rw (refused, handle_upload) refl)
    | inr ((settings, w), read) ↦ elim (load_file_settings-cases selects settings p) [
      | inr (bad, (q, stops, valid, kept)) ↦ inr (
          inl (
            settings,
            w,
            q,
            read,
            inl bad,
            rw (read, handle_upload, stops) refl,
            valid v,
            ap (λ (s : Storage). s.workload_cache) kept,
          ))
      | inl whole ↦
          let loaded : Page = load_settings knob settings p in
          let (r, valid, way) = load_file-cases w loaded (load_settings-IsValid settings p v) in
          elim way [
            | inr (stops, lacks) ↦ inr (
                inl (
                  settings,
                  w,
                  record loaded { registry = r },
                  read,
                  inr lacks,
                  rw (read, handle_upload, whole, stops) refl,
                  valid,
                  refl,
                ))
            | inl ends ↦ inr (
                inr (
                  cache_workload (cache_settings (record loaded { registry = r })),
                  rw (read, handle_upload, whole, ends) refl,
                  valid,
                  refl,
                ))
          ]
    ]
  ]

  restored :
      (p q : Page)
      → q.storage ≡ (cache_workload p).storage
      → restore_workload knob q ≡ load_into knob (parsed (cached_workload p.registry)) q
  unfolding restore_workload cache_workload
  restored p q kept =
      ap
        (λ (s : Storage). elim s.workload_cache as (λ _. Page) [
          | some saved ↦ load_into knob (parsed saved) q
          | none ↦ add_widget knob q
        ])
        kept

  -- When the player page starts again with what the browser kept, it has widgets with the queries and
  -- the rates that were kept, in their order: those of a valid page whose dials showed numbers within
  -- the maximum. Then a pause is sent.
  pub begin-cache_workload :
      KnobKeeps knob
      → (m : ℕ) (p q : Page) → IsValid p.registry
      → IsValid q.registry
      → q.form.dial_max_value ≡ num (int (pos m))
      → q.storage ≡ (cache_workload p).storage
      → All (InRange m) (values (cached_workload p.registry))
      → (values (cached_workload (begin knob q).registry) ≡ values (cached_workload p.registry))
        × ((begin knob q).player.pauses ≡ q.player.pauses + 1)
  unfolding begin restore_workload cache_workload load_into send_pause set_loading_status
  begin-cache_workload keeps m p q vp vq limit kept a =
      let e = restored p (with_player (λ s. record s { running = 0; label = play }) q) kept in
      (
        ap (λ (r : Page). values (cached_workload r.registry)) e
            ∙ ap
                (λ l. values (
                  cached_workload
                    (load_workload knob l (parsed (cached_workload p.registry)) q.registry)))
                limit
            ∙ load_workload-cached_workload knob keeps m p.registry q.registry vp vq a,
        ap (λ (r : Page). r.player.pauses + 1) e,
      )
