-- ===== src/Metrics/Chart.antt =====
-- The parts of the memory chart, their names and their texts (app/public/js/metrics_graphs.js). The
-- library gives the colours: a colour is its place among them.
pub mod Labels
pub mod Config
use workload_simulator.Prelude.{
  ℕ, suc, ℤ, pos, ◌-◌, ◌*◌, length, ltb_ℤ, Option, none, some, List, [], ◌∷◌, ◌++◌, map,
  if◌then◌else◌,
}
use workload_simulator.Js.Parse.{Text, int, codes, show, text_eq}

-- A part with its colour, and its drilldown: its categories with what each shows at first.
pub record Part : Type 0 where
  pub y : ℕ
  pub color : ℕ
  pub drilldown : List (Text × ℕ)

abbrev pub categories : List Text
categories = codes "Transaction Buffer" ∷ codes "Hash Tables" ∷ codes "Buffer Manager" ∷ []

abbrev pub parts : List Part
parts =
    record { y = 50; color = 0; drilldown = (codes "Transaction Buffer", 50) ∷ [] }
    ∷ record { y = 20; color = 1; drilldown = (codes "Hash Tables", 20) ∷ [] }
    ∷ record {
      y = 30;
      color = 2;
      drilldown = (codes "Table", 10) ∷ (codes "Cached", 10) ∷ (codes "Other", 0) ∷ [];
    }
    ∷ []

-- The loop over the parts: the points of the inner ring, and of the outer one.
unfoldable pub mem_usage : List Text → List Part → List (Text × ℕ)
mem_usage (name ∷ names) (part ∷ rest) = (name, part.y) ∷ mem_usage names rest
mem_usage _ _ = []

unfoldable pub submem_usage : List Part → List (Text × ℕ)
submem_usage [] = []
submem_usage (part ∷ rest) = part.drilldown ++ submem_usage rest

-- The colour of a point: that of its part, brightened by `numerator / denominator`.
pub record Shade : Type 0 where
  pub color : ℕ
  pub numerator : ℕ
  pub denominator : ℕ

-- `0.2 - (j / n) / 5` for the categories of a part from `j` on, of which there are `n`
unfoldable pub shades_from : ℕ → ℕ → ℕ → List (Text × ℕ) → List Shade
shades_from color n j [] = []
shades_from color n j (_ ∷ drilldown) =
    record { color = color; numerator = n - j; denominator = 5 * n }
    ∷ shades_from color n (suc j) drilldown

-- The colours of the two rings, from the same loop.
unfoldable pub mem_colors : List Part → List ℕ
mem_colors [] = []
mem_colors (part ∷ rest) = part.color ∷ mem_colors rest

unfoldable pub submem_shades : List Part → List Shade
submem_shades [] = []
submem_shades (part ∷ rest) =
    shades_from part.color (length part.drilldown) 0 part.drilldown ++ submem_shades rest

-- The text over a point.
unfoldable pub tooltip : Text → Text
tooltip name =
    if text_eq name (codes "Transaction Buffer")
    then codes "Transaction log records before they're flushed to disk."
    else if text_eq name (codes "Hash Tables")
    then codes "Used for table indices."
    else if text_eq name (codes "Buffer Manager")
    then codes "Buffer Manager -- see subcategories."
    else if text_eq name (codes "Table")
    then codes "Allocators that store table data."
    else if text_eq name (codes "Cached")
    then codes "Allocated from OS which isn't used by allocators."
    else if text_eq name (codes "Other")
    then codes "Other buffer manager memory."
    else []

-- `y.toFixed(2)` of an integer
unfoldable pub to_fixed : ℤ → Text
to_fixed y = show (int y) ++ codes ".00"

-- The labels of the two rings; `none` is `null`.
unfoldable pub inner_label : Text → ℤ → Option Text
inner_label name y =
    if ltb_ℤ (pos 100) y then some (name ++ codes ": " ++ to_fixed y ++ codes " MB") else none

unfoldable pub outer_label : Text → ℤ → Option Text
outer_label name y =
    if ltb_ℤ (pos 1) y
    then some (codes "<b>" ++ name ++ codes ":</b> " ++ to_fixed y ++ codes " MB")
    else none
