-- ===== src/Layout.antt =====
-- The margins of the widgets (app/public/js/query_dial.js, `adjustWidgetMargins`). Widths are whole
-- pixels; a margin may be a fraction of one.
pub mod Rows
use workload_simulator.Prelude.{
  ℕ, ◌-◌, ◌*◌, ◌/◌, ◌%◌, ◌==◌, Option, none, some, leb, if◌then◌else◌, List, [], ◌∷◌, map, suc, ◌+◌,
}

-- A margin of `numerator / denominator` pixels.
pub record Margin : Type 0 where
  pub numerator : ℕ
  pub denominator : ℕ

-- `Math.min(m, 40)`
unfoldable pub at_most_40 : Margin → Margin
at_most_40 m =
    if leb m.numerator (40 * m.denominator) then m else record { numerator = 40; denominator = 1 }

-- The styles of one widget; `none` where the source sets a width that is infinite or NaN, which the
-- browser drops.
pub record Margins : Type 0 where
  pub right : Option Margin
  pub bottom : Option Margin

-- The body of the loop, for the widget at `index`. In a container narrower than a widget there is no
-- row: the remainder is NaN, and a share is infinite, or NaN in a container of no width.
unfoldable pub margins_at : ℕ → ℕ → ℕ → Margins
margins_at container_width widget_width index =
    let free_space = container_width % widget_width in
    let widgets_per_row = container_width / widget_width in
    let share : Margin = record { numerator = free_space; denominator = widgets_per_row } in
    if widgets_per_row == 0
    then record {
      right = none;
      bottom = if free_space == 0 then none else some (record { numerator = 40; denominator = 1 });
    }
    else if index % widgets_per_row == widgets_per_row - 1
    then record {
      right = some (record { numerator = 0; denominator = 1 });
      bottom = some (at_most_40 share);
    }
    else record { right = some share; bottom = some (at_most_40 share) }

-- The loop over the widgets of the page, by their indices from `index` on.
unfoldable pub adjust_from : ℕ → ℕ → ℕ → List ℕ → List Margins
adjust_from container_width widget_width index [] = []
adjust_from container_width widget_width index (_ ∷ elements) =
    margins_at container_width widget_width index
    ∷ adjust_from container_width widget_width (suc index) elements

-- `adjustWidgetMargins`, for the elements of the widgets
unfoldable pub adjust_widget_margins : ℕ → ℕ → List ℕ → List Margins
adjust_widget_margins container_width widget_width elements =
    adjust_from container_width widget_width 0 elements
