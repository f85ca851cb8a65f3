-- ===== src/QueryTable.antt =====
-- The queries of the earlier server (stress/query_table.py): their parameters, and which of them a
-- worker sends next. Texts are of ASCII codes. The rates are natural numbers, and a probability is
-- kept as its numerator over the total rate, so that no rounding happens.
pub mod Tokens
pub mod Pieces
pub mod Draws
use workload_simulator.Prelude.{
  ℕ, zero, suc, ◌+◌, ◌-◌, ◌==◌, Bool, true, false, ◌&&◌, ◌||◌, Option, none, some, List, [], ◌∷◌,
  ◌++◌, ltb, leb, max, take, if◌then◌else◌, length,
}
use workload_simulator.Js.Parse.{lower_code, Text, codes, text_eq, show_ℕ}

abbrev pub string_token : Text
string_token = codes "^"

abbrev pub number_token : Text
number_token = codes "@"

abbrev pub time_token : Text
time_token = codes "@T"

abbrev pub mark_token : Text
mark_token = codes "@M"

abbrev pub all_param_tokens : List Text
all_param_tokens = mark_token ∷ time_token ∷ number_token ∷ string_token ∷ []

abbrev pub lower : Text → Text
lower [] = []
lower (c ∷ s) = lower_code c ∷ lower s

-- `s` begins with `c`, whatever the case of the letters.
abbrev pub begins : Text → Text → Bool
begins [] s = true
begins (a ∷ c) [] = false
begins (a ∷ c) (b ∷ s) = (lower_code a == lower_code b) && begins c s

-- `split_and_fold`: the pieces of `s` between the places where `c` stands, with `c` between them.
-- `skip` codes of a place are still to be passed over, and `piece` has been read of the current piece.
unfoldable pub split_from : Text → ℕ → Text → Text → List Text
split_from c skip piece [] = piece ∷ []
split_from c (suc skip) piece (x ∷ s) = split_from c skip piece s
split_from c zero piece (x ∷ s) =
    let found = split_from c (length c - 1) [] s in
    let further = split_from c 0 (piece ++ x ∷ []) s in
    if begins c (x ∷ s) then piece ∷ c ∷ found else further

abbrev pub split_and_fold : Text → Text → List Text
split_and_fold s c = split_from c 0 [] s

abbrev pub is_in : Text → List Text → Bool
is_in s [] = false
is_in s (t ∷ ts) = text_eq s t || is_in s ts

-- The inner loop, for the token `c` after the tokens `earlier`.
unfoldable pub split_all : List Text → Text → List Text → List Text
split_all earlier c [] = []
split_all earlier c (s ∷ strings) =
    let others = split_all earlier c strings in
    if is_in s earlier then s ∷ others else split_and_fold s c ++ others

unfoldable pub tokenize_from : List Text → List Text → List Text → List Text
tokenize_from earlier [] strings = strings
tokenize_from earlier (c ∷ tokens) strings =
    tokenize_from (earlier ++ c ∷ []) tokens (split_all earlier c strings)

-- `tokenize_query`
unfoldable pub tokenize_query : Text → List Text
tokenize_query query = tokenize_from [] all_param_tokens (query ∷ [])

abbrev pub is_blank : ℕ → Bool
is_blank c = c == 32 || (leb 9 c && leb c 13)

-- `s.lstrip().split()[0]`; an IndexError if there is no word.
unfoldable pub word_from : Text → Text
word_from [] = []
word_from (c ∷ s) = let others = word_from s in if is_blank c then [] else c ∷ others

unfoldable pub first_word : Text → Option Text
first_word [] = none
first_word (c ∷ s) =
    let later = first_word s in if is_blank c then later else some (word_from (c ∷ s))

-- The final types, or a string that is kept.
pub data Chunk : Type 0 where
  old_string new_string old_number new_number : Chunk
  kept : Text → Chunk

abbrev pub chunk_of : Bool → Text → Chunk
chunk_of selects q =
    if text_eq q string_token
    then (if selects then old_string else new_string)
    else if text_eq q number_token
    then (if selects then old_number else new_number)
    else kept q

abbrev pub chunks_of : Bool → List Text → List Chunk
chunks_of selects [] = []
chunks_of selects (q ∷ qlist) = chunk_of selects q ∷ chunks_of selects qlist

-- `parse_query`, with `none` for its IndexError
unfoldable pub parse_query : List Text → Option (List Chunk)
parse_query [] = none
parse_query (q ∷ qlist) = elim (first_word q) [
  | none ↦ none
  | some word ↦ some (chunks_of (text_eq (lower word) (codes "select")) (q ∷ qlist))
]

-- The globals of the module: the counter, and the seconds that `global_time` has gone on.
pub record Globals : Type 0 where
  pub counter : ℕ
  pub seconds : ℕ

-- `randint` is the value that the generator gives between 1 and its argument, and `clock` the text of
-- the time after so many seconds.
module _ (randint : ℕ → ℕ) (clock : ℕ → Text) where
  -- What the function of a chunk gives, and the globals that it leaves.
  unfoldable pub run_chunk : Text → Chunk → Globals → Text × Globals
  run_chunk prefix old_string g = (
    39 ∷ (take 32 (prefix ++ (codes "|" ++ show_ℕ g.counter)) ++ 39 ∷ []),
    record g { counter = g.counter + 1 },
  )
  run_chunk prefix new_string g = (
    39 ∷ (take 32 (prefix ++ (codes "|" ++ show_ℕ g.counter)) ++ 39 ∷ []),
    record g { counter = g.counter + 1 },
  )
  run_chunk prefix old_number g = (prefix ++ show_ℕ (randint (max g.counter 2)), g)
  run_chunk prefix new_number g = (prefix ++ show_ℕ g.counter, record g { counter = g.counter + 1 })
  run_chunk prefix (kept q) g =
      if text_eq q time_token
      then (clock g.seconds, record g { seconds = g.seconds + 1 })
      else if text_eq q mark_token
      then (prefix, g)
      else (q, g)

  unfoldable pub run_chunks : Text → List Chunk → Globals → Text × Globals
  run_chunks prefix [] g = ([], g)
  run_chunks prefix (c ∷ chunks) g =
      let (s, h) = run_chunk prefix c g in let (t, k) = run_chunks prefix chunks h in (s ++ t, k)

  -- The function that `generate_query_function` makes of a query
  unfoldable pub query_f : Text → Text → Globals → Option (Text × Globals)
  query_f query prefix g = elim (parse_query (tokenize_query query)) [
    | none ↦ none
    | some chunks ↦ some (run_chunks prefix chunks g)
  ]

-- A query of the table.
pub record QueryObject : Type 0 where
  pub query_id : ℕ
  pub query : Text
  pub qps : ℕ

abbrev pub total_qps : List QueryObject → ℕ
total_qps [] = 0
total_qps (q ∷ workload) = q.qps + total_qps workload

-- `workload_l.sort`, by the rate; equal rates keep their order.
unfoldable pub insert_by_qps : QueryObject → List QueryObject → List QueryObject
insert_by_qps q [] = q ∷ []
insert_by_qps q (r ∷ sorted) =
    let later = insert_by_qps q sorted in if leb q.qps r.qps then q ∷ r ∷ sorted else r ∷ later

unfoldable pub sort_by_qps : List QueryObject → List QueryObject
sort_by_qps [] = []
sort_by_qps (q ∷ workload) = insert_by_qps q (sort_by_qps workload)

-- The loop of `QueryTable.__init__` over the sorted workload, with the probabilities times the total
-- rate and without the rounding of their sums, which may leave the last one of the source below 1.
unfoldable pub probabilities_from : ℕ → List QueryObject → List ℕ
probabilities_from qps_prob [] = []
probabilities_from qps_prob (q ∷ objects) =
    let prob = if q.qps == 0 then 0 else qps_prob + q.qps in prob ∷ probabilities_from prob objects

pub record QueryTable : Type 0 where
  pub probabilities : List ℕ
  pub query_objects : List QueryObject
  pub total : ℕ

abbrev pub table_of : List QueryObject → QueryTable
table_of workload = record {
  probabilities = probabilities_from 0 (sort_by_qps workload);
  query_objects = sort_by_qps workload;
  total = total_qps workload;
}

-- A query whose function can be made, with an id for which there are statistics.
abbrev pub is_accepted : QueryObject → Bool
is_accepted q =
    ltb q.query_id 500
    && (elim (parse_query (tokenize_query q.query)) [ none ↦ false | some chunks ↦ true ])

abbrev pub all_accepted : List QueryObject → Bool
all_accepted [] = true
all_accepted (q ∷ workload) = is_accepted q && all_accepted workload

-- `QueryTable.__init__`, with `none` for its exceptions: an empty workload, which has no largest id, or
-- a query that is not accepted.
unfoldable pub query_table : List QueryObject → Option QueryTable
query_table [] = none
query_table (q ∷ workload) =
    if all_accepted (q ∷ workload) then some (table_of (q ∷ workload)) else none

abbrev pub is_empty : QueryTable → Bool
is_empty t = t.total == 0

-- `find_gt`: the leftmost place with a value greater than `x`, for a list that is sorted.
unfoldable pub find_gt : List ℕ → ℕ → ℕ
find_gt [] x = 0
find_gt (a ∷ rest) x = let later = find_gt rest x in if ltb x a then 0 else suc later

abbrev pub object_at : List QueryObject → ℕ → Option QueryObject
object_at [] i = none
object_at (q ∷ objects) zero = some q
object_at (q ∷ objects) (suc i) = object_at objects i

-- `get_random_query`, where the random number times the total rate has the whole part `x`; `none` for
-- an IndexError.
unfoldable pub get_random_query : QueryTable → ℕ → Option QueryObject
get_random_query t x = object_at t.query_objects (find_gt t.probabilities x)
