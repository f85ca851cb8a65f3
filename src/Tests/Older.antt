-- ===== src/Tests/Older.antt =====
-- The pages of the earlier server at concrete inputs.
use workload_simulator.Prelude.{All, ◌+◌, List, [], ◌∷◌, ◌≡◌, refl, some, arith}
use workload_simulator.Js.Parse.{codes, text_eq}
use workload_simulator.Earlier.{starts_with, includes, name_of_server}
use workload_simulator.QueryTable.{
  all_param_tokens, QueryObject, query_table, table_of, total_qps, get_random_query, sort_by_qps,
  insert_by_qps, parse_query, tokenize_query, tokenize_from, split_all, split_from, first_word,
  word_from,
}
use workload_simulator.QueryTable.Draws.{get_random_query-share}
use workload_simulator.QueryTable.Tokens.{joined}
use workload_simulator.QueryTable.Pieces.{IsPiece, tokenize_query-IsPiece}

told_name : name_of_server (codes "version MemSQL 2") ≡ codes "MemSQL"
unfolding name_of_server includes starts_with
told_name = refl

-- Queries with the rates 3, 0 and 2.
abbrev often : QueryObject
often = record { query_id = 0; query = codes "select @"; qps = 3 }

abbrev never : QueryObject
never = record { query_id = 1; query = codes "select 1"; qps = 0 }

abbrev sometimes : QueryObject
sometimes = record { query_id = 2; query = codes "select 2"; qps = 2 }

abbrev three_queries : List QueryObject
three_queries = often ∷ never ∷ sometimes ∷ []

get_random_query-share_example :
    (get_random_query (table_of three_queries) (total_qps (never ∷ []) + 1) ≡ some sometimes)
    × (total_qps (never ∷ []) + 2 + total_qps (often ∷ []) ≡ 5)
unfolding query_table sort_by_qps insert_by_qps parse_query tokenize_query tokenize_from split_all
    split_from first_word word_from text_eq
get_random_query-share_example =
    get_random_query-share three_queries (table_of three_queries) (never ∷ []) sometimes
      (often ∷ []) 1 refl refl (omega arith)

tokenize_query-IsPiece_example :
    All (IsPiece all_param_tokens) (tokenize_query (codes "Select @m, @"))
    × (joined (tokenize_query (codes "Select @m, @")) ≡ codes "select @m, @")
tokenize_query-IsPiece_example = tokenize_query-IsPiece (codes "Select @m, @")
