-- ===== src/Graph/Config.antt =====
-- The configurations of the two graphs and the making of a graph (app/public/js/query_graphs.js). What
-- the drawing library prints for a time and for a number is a parameter.
use workload_simulator.Prelude.{ℕ, Bool, false, Option, none, some, List, [], ◌∷◌, ◌++◌}
use workload_simulator.Js.Parse.{Text, Num, codes}
use workload_simulator.Graph.{reinit_series}

-- A function of the configuration that does nothing.
pub data Handler : Type 0 where
  nothing : Handler

pub record PlotLine : Type 0 where
  pub value : ℕ
  pub width : ℕ
  pub color : Text

pub record Chart : Type 0 where
  pub render_to : Text
  pub chart_type : Text
  pub load : Option Handler

pub record Axes : Type 0 where
  pub x_type : Text
  pub tick_pixel_interval : ℕ
  pub y_title : Text
  pub plot_lines : List PlotLine

pub record Series : Type 0 where
  pub name : Text
  pub points : Option (List Num)

pub record ChartConfig : Type 0 where
  pub chart : Chart
  pub line_width : ℕ
  pub marker_enabled : Bool
  pub title : Text
  pub axes : Axes
  pub legend_enabled : Bool
  pub exporting_enabled : Bool
  pub series : List Series

abbrev pub plot_line : PlotLine
plot_line = record { value = 0; width = 1; color = codes "#808080" }

abbrev pub qps_config : ChartConfig
qps_config = record {
  chart = record { render_to = codes "qps-graph"; chart_type = codes "spline"; load = none };
  line_width = 1;
  marker_enabled = false;
  title = codes "Live random data";
  axes = record {
    x_type = codes "datetime";
    tick_pixel_interval = 100;
    y_title = codes "Requests Per Second";
    plot_lines = plot_line ∷ [];
  };
  legend_enabled = false;
  exporting_enabled = false;
  series = record { name = codes "requests per second"; points = none } ∷ [];
}

abbrev pub r_lag_config : ChartConfig
r_lag_config = record {
  chart = record { render_to = codes "r-lag-graph"; chart_type = codes "spline"; load = none };
  line_width = 1;
  marker_enabled = false;
  title = codes "Live random data";
  axes = record {
    x_type = codes "datetime";
    tick_pixel_interval = 100;
    y_title = codes "Total Requests";
    plot_lines = plot_line ∷ [];
  };
  legend_enabled = false;
  exporting_enabled = false;
  series = record { name = codes "requests completed"; points = none } ∷ [];
}

-- The text over a point, for both graphs.
unfoldable pub formatter : {T : Type 0} → (T → Text) → (Num → Text) → Text → T → Num → Text
formatter date_format number_format name x y =
    codes "<b>" ++ name ++ codes "</b><br/>" ++ date_format x ++ codes "<br/>" ++ number_format y

-- A graph: its configuration, a copy of the one that it is made of, and the points of its chart.
pub record QueryGraph : Type 0 where
  pub config : ChartConfig
  pub points : List Num

-- `new QueryGraph(title, config)`
unfoldable pub query_graph : Text → ChartConfig → QueryGraph
query_graph title config = record {
  config = record config { title = title; chart = record config.chart { load = some nothing } };
  points = reinit_series;
}
