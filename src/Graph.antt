-- ===== src/Graph.antt =====
-- The points of a graph (app/public/js/query_graphs.js, `QueryGraph`), oldest first. The time of a
-- point is left out.
pub mod Laws
pub mod Config
use workload_simulator.Prelude.{ℕ, Bool, ◌&&◌, List, [], ◌∷◌, ◌++◌, length, leb, if◌then◌else◌}
use workload_simulator.Js.Parse.{Num}

-- `reinit_series`
unfoldable pub reinit_series : List Num
reinit_series = []

abbrev pub drop_oldest : List Num → List Num
drop_oldest [] = []
drop_oldest (_ ∷ points) = points

-- `record_point`: in live mode a graph of a thousand points loses its oldest one.
unfoldable pub record_point : Bool → Num → List Num → List Num
record_point livemode y points =
    if livemode && leb 1000 (length points)
    then drop_oldest (points ++ y ∷ [])
    else points ++ y ∷ []
