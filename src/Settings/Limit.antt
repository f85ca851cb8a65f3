-- ===== src/Settings/Limit.antt =====
-- Stepping and setting the maximum of the dials.
use workload_simulator.Prelude.{
  ℕ, ◌+◌, ◌-◌, ◌*◌, ◌/◌, ◌%◌, ◌<◌, pos, ◌+ℤ◌, ◌-ℤ◌, rem_ℤ, eq_ℤ, ◌≡◌, refl, sym, ap, ◌∙◌, ◌⊎◌, inl,
  inr, Bool, Bool-cases, true, false, List, [], ◌∷◌, arith, if◌then◌else◌, leb,
}
use workload_simulator.Js.{Scalar, num, plus, to_num}
use workload_simulator.Js.Parse.{Text, nan, int, parse_int}
use workload_simulator.Page.{Page}
use workload_simulator.Settings.{
  step_max, with_max, reload_dial_max_value, update_dial_value, set_max_dial_value,
}

-- The least multiple of 5000 that is not below `n`.
abbrev pub round_up : ℕ → ℕ
round_up n = (n + 4999) / 5000 * 5000

pub step_max-up : (n : ℕ) → step_max true (num (int (pos n))) ≡ num (int (pos (round_up n + 5000)))
unfolding step_max plus to_num ◌+ℤ◌ ◌-ℤ◌ rem_ℤ eq_ℤ
step_max-up n = ground arith

pub step_max-down :
    (n : ℕ)
    → 0 < n
    → step_max false (num (int (pos n)))
      ≡ num (int (pos (if leb n 5000 then 1 else round_up n - 5000)))
unfolding step_max plus to_num ◌+ℤ◌ ◌-ℤ◌ rem_ℤ eq_ℤ
step_max-down n h = ground arith

-- The maximum as a button leaves it: 1 or a positive multiple of 5000.
abbrev pub IsStepped : Scalar → Type 0
IsStepped v = (k : ℕ) × (v ≡ num (int (pos k))) × (0 < k) × ((k ≡ 1) ⊎ (k % 5000 ≡ 0))

step_max-IsStepped : (up : Bool) (n : ℕ) → 0 < n → IsStepped (step_max up (num (int (pos n))))
step_max-IsStepped true n h = (round_up n + 5000, step_max-up n, omega arith, inr (omega arith))
step_max-IsStepped false n h =
    (if leb n 5000 then 1 else round_up n - 5000, step_max-down n h, ground arith, ground arith)

-- A press of the upper button and then of the lower one round the maximum up.
pub step_max-down-up :
    (n : ℕ)
    → 0 < n
    → step_max false (step_max true (num (int (pos n)))) ≡ num (int (pos (round_up n)))
step_max-down-up n h =
    rw (step_max-up n) (step_max-down (round_up n + 5000) (omega arith) ∙ ground arith)

step_max-nan : (up : Bool) → step_max up (num nan) ≡ num nan
unfolding step_max plus to_num
step_max-nan true = refl
step_max-nan false = refl

module _ (knob : Scalar → Text → Text) where
  pub press_all : List Bool → Page → Page
  press_all [] p = p
  press_all (up ∷ presses) p = press_all presses (update_dial_value knob up p)

  update_dial_value-max :
      (up : Bool) (p : Page)
      → p.form.dial_value_enabled ≡ true
      → ((update_dial_value knob up p).form.dial_max_value ≡ step_max up p.form.dial_max_value)
        × ((update_dial_value knob up p).form.dial_value_enabled ≡ true)
  unfolding update_dial_value reload_dial_max_value
  update_dial_value-max up p e = ground arith

  -- While the buttons work, and from a positive maximum, any presses of them, at least one, leave the
  -- maximum at 1 or at a positive multiple of 5000.
  pub press_all-IsStepped :
      (up : Bool) (presses : List Bool) (p : Page) (n : ℕ)
      → p.form.dial_value_enabled ≡ true
      → p.form.dial_max_value ≡ num (int (pos n))
      → 0 < n
      → IsStepped (press_all (up ∷ presses) p).form.dial_max_value
  unfolding press_all
  press_all-IsStepped up [] p n e m h =
      let (k, at_k, positive, kind) = step_max-IsStepped up n h in
      (k, (update_dial_value-max up p e).0 ∙ ap (step_max up) m ∙ at_k, positive, kind)
  press_all-IsStepped up (next ∷ presses) p n e m h =
      let (k, at_k, positive, _) = step_max-IsStepped up n h in
      let (stays, enabled) = update_dial_value-max up p e in
      press_all-IsStepped next presses (update_dial_value knob up p) k enabled
        (stays ∙ ap (step_max up) m ∙ at_k) positive

  -- While a workload runs the buttons change nothing.
  pub press_all-disabled :
      (presses : List Bool) (p : Page) → p.form.dial_value_enabled ≡ false → press_all presses p ≡ p
  unfolding press_all update_dial_value
  press_all-disabled [] p e = refl
  press_all-disabled (up ∷ presses) p e =
      ap (press_all presses) (ground arith) ∙ press_all-disabled presses p e

  press_all-nan :
      (presses : List Bool) (p : Page)
      → p.form.dial_max_value ≡ num nan
      → (press_all presses p).form.dial_max_value ≡ num nan
  unfolding press_all
  press_all-nan [] p e = e
  press_all-nan (up ∷ presses) p e =
      press_all-nan presses (update_dial_value knob up p)
        (elim (Bool-cases p.form.dial_value_enabled) [
          | inl works ↦ (update_dial_value-max up p works).0 ∙ ap (step_max up) e ∙ step_max-nan up
          | inr blocked ↦
              ap (λ (q : Page). q.form.dial_max_value) (press_all-disabled (up ∷ []) p blocked) ∙ e
        ])

  -- A text that is no number is not refused: the report of an error, whatever it would do, has no part
  -- in what is done, and the maximum is NaN, also after any presses of the buttons.
  pub set_max_dial_value-nan :
      (report other : Page → Page) (v : Text) (presses : List Bool) (p : Page)
      → parse_int v ≡ nan
      → (set_max_dial_value knob report v p ≡ set_max_dial_value knob other v p)
        × ((press_all presses (set_max_dial_value knob report v p)).form.dial_max_value ≡ num nan)
  unfolding set_max_dial_value reload_dial_max_value
  set_max_dial_value-nan report other v presses p e = (
    unread report ∙ sym (unread other),
    ap (λ (q : Page). (press_all presses q).form.dial_max_value) (unread report)
        ∙ press_all-nan presses (reload_dial_max_value knob (with_max (num nan) p)) refl,
  )
    where
      unread :
          (f : Page → Page)
          → set_max_dial_value knob f v p ≡ reload_dial_max_value knob (with_max (num nan) p)
      unread f = unfold set_max_dial_value in rw e refl
