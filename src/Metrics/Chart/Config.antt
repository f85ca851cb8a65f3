-- ===== src/Metrics/Chart/Config.antt =====
-- The configuration of the memory chart (app/public/js/metrics_graphs.js, `metricsChartConfig`). The
-- percentage of a point, which the drawing library computes, is handed to its label as a text.
use workload_simulator.Prelude.{
  map, ℕ, ℤ, negsuc, Bool, true, false, Option, none, some, List, [], ◌∷◌, ◌++◌,
}
use workload_simulator.Js.Parse.{Text, codes}
use workload_simulator.Metrics.Chart.{
  categories, parts, mem_usage, submem_usage, Shade, mem_colors, submem_shades, tooltip, to_fixed,
  inner_label, outer_label,
}

pub record Chart : Type 0 where
  pub render_to : Text
  pub chart_type : Text
  pub plot_border_width : Option ℕ
  pub plot_background_color : Option Text
  pub spacing_bottom : ℕ
  pub height : ℕ
  pub border_width : ℕ

pub record Title : Type 0 where
  pub text : Text
  pub margin : ℕ

pub record PieOptions : Type 0 where
  pub shadow : Bool
  pub allow_point_select : Bool
  pub cursor : Text
  pub size : Text
  pub labels_enabled : Bool
  pub color : Text
  pub connector_color : Text
  pub formatter : Text → ℤ → Text → Text

-- A ring: where it lies, its points and the labels of these.
pub record Ring : Type 0 where
  pub name : Text
  pub points : List (Text × ℕ)
  pub colors : List Shade
  pub size : Option Text
  pub inner_size : Option Text
  pub formatter : Text → ℤ → Option Text
  pub label_color : Option Text
  pub label_distance : Option ℤ

pub record PieConfig : Type 0 where
  pub chart : Chart
  pub title : Title
  pub y_title : Text
  pub pie : PieOptions
  pub tooltip_formatter : Text → Text
  pub series : List Ring

-- The label of a point with its share.
unfoldable pub point_label : Text → ℤ → Text → Text
point_label name y percentage =
    codes "<b>"
    ++ (name ++ (codes "</b>: " ++ (to_fixed y ++ (codes " MB (" ++ (percentage ++ codes " %)")))))

abbrev pub metrics_chart_config : PieConfig
metrics_chart_config = record {
  chart = record {
    render_to = codes "mets-graph";
    chart_type = codes "pie";
    plot_border_width = none;
    plot_background_color = none;
    spacing_bottom = 100;
    height = 500;
    border_width = 0;
  };
  title = record { text = codes "MemSQL Memory Usage"; margin = 60 };
  y_title = codes "Total percent of memory";
  pie = record {
    shadow = false;
    allow_point_select = true;
    cursor = codes "pointer";
    size = codes "100%";
    labels_enabled = true;
    color = codes "#000000";
    connector_color = codes "#000000";
    formatter = point_label;
  };
  tooltip_formatter = tooltip;
  series =
      record {
        name = [];
        points = mem_usage categories parts;
        colors = map (λ c. record { color = c; numerator = 0; denominator = 1 }) (mem_colors parts);
        size = some (codes "70%");
        inner_size = none;
        formatter = inner_label;
        label_color = some (codes "white");
        label_distance = some (negsuc 29);
      }
      ∷ record {
        name = [];
        points = submem_usage parts;
        colors = submem_shades parts;
        size = none;
        inner_size = some (codes "70%");
        formatter = outer_label;
        label_color = none;
        label_distance = none;
      }
      ∷ [];
}
