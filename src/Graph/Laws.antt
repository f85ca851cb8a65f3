-- ===== src/Graph/Laws.antt =====
-- How many points a graph holds.
use workload_simulator.Prelude.{
  ℕ, ◌+◌, ◌≤◌, ◌≡◌, Bool, true, false, List, [], ◌∷◌, ◌++◌, length, length-append, arith,
}
use workload_simulator.Js.Parse.{Num}
use workload_simulator.Graph.{record_point, drop_oldest}

abbrev pub record_all : Bool → List Num → List Num → List Num
record_all live [] points = points
record_all live (y ∷ ys) points = record_all live ys (record_point live y points)

length-snoc : (y : Num) (points : List Num) → length (points ++ y ∷ []) ≡ length points + 1
length-snoc y points = length-append points (y ∷ [])

length-drop_oldest :
    (points : List Num) (n : ℕ) → length points ≡ n + 1 → length (drop_oldest points) ≡ n
length-drop_oldest [] n h = absurd (omega arith)
length-drop_oldest (_ ∷ points) n h = omega arith

length-record_point :
    (y : Num) (points : List Num)
    → length points ≤ 1000
    → (length (record_point true y points) ≤ 1000)
      × (length (record_point false y points) ≡ length points + 1)
unfolding record_point
length-record_point y points h = (
  ground (arith, length-snoc y points, length-drop_oldest (points ++ y ∷ []) (length points)),
  ground (arith, length-snoc y points),
)

-- In live mode a graph of at most a thousand points keeps at most a thousand, whatever is recorded.
pub length-record_all :
    (ys points : List Num) → length points ≤ 1000 → length (record_all true ys points) ≤ 1000
length-record_all [] points h = h
length-record_all (y ∷ ys) points h =
    length-record_all ys (record_point true y points) (length-record_point y points h).0
