-- ===== src/Sqlitex/Query/Tests.antt =====
-- Runs over statements in memory, and the theorem at inputs of these runs.
use go_sqlite.Base.{◌≡◌, refl, none, [], ◌∷◌}
use go_sqlite.Base.Int.{pos}
use go_sqlite.Errors.{ok, err}
use go_sqlite.Sqlitex.Statements.Memory.{table, Table}
use go_sqlite.Sqlitex.Query.{
  result_int64, result_of, result_setup, result_teardown, multiple_results,
}
use go_sqlite.Sqlitex.Query.OneRow.{FirstColumn, results-FirstColumn}

abbrev one_row : Table
one_row = record { left = 5 ∷ []; current = 0; values = λ i. none; seen = [] }

abbrev two_rows : Table
two_rows = record one_row { left = 5 ∷ 6 ∷ [] }

reads_one : (result_int64 table 0 one_row).0 ≡ ok (pos 5)
unfolding result_int64 result_of result_setup result_teardown
reads_one = refl

refuses_two : (result_int64 table 0 two_rows).0 ≡ err multiple_results
unfolding result_int64 result_of result_setup result_teardown
refuses_two = refl

results-FirstColumn_example : FirstColumn table 0 one_row
results-FirstColumn_example = results-FirstColumn table 0 one_row
