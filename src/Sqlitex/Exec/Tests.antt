-- ===== src/Sqlitex/Exec/Tests.antt =====
-- Runs over statements in memory, and the theorems at inputs of these runs.
use go_sqlite.Base.{ℕ, ◌≡◌, refl, Option, none, some, [], ◌∷◌}
use go_sqlite.Base.Int.{negsuc}
use go_sqlite.Errors.{Error}
use go_sqlite.Sqlitex.Attempt.{value}
use go_sqlite.Sqlitex.Bitset.{new_bitset, set_bit, has_all}
use go_sqlite.Sqlitex.Statements.{int64, utf8_text}
use go_sqlite.Sqlitex.Statements.Memory.{table, Table}
use go_sqlite.Sqlitex.Exec.{
  string, uint, ExecOptions, strict, rows, bind_all, set_options, set_args, set_named, set_params,
  set_param, provide, checked_against,
}

abbrev two_rows : Table
two_rows = record { left = 5 ∷ 6 ∷ []; current = 0; values = λ i. none; seen = [] }

-- The callback keeps the number of the row, and fails on 6.
abbrev keep_row : ℕ → Table → Option Error × Table
keep_row s t = (none, record t { seen = t.current ∷ t.seen })

abbrev options : ExecOptions table
options = record {
  args = uint 18446744073709551615 ∷ [];
  named = ("$b", string "x") ∷ [];
  result_func = some keep_row;
}

visits_both : (rows table 3 (some keep_row) 2 two_rows).1.seen ≡ 6 ∷ 5 ∷ []
unfolding rows
visits_both = refl

binds_both :
    ((bind_all table 2 (strict table) (some options) two_rows).0 ≡ value tt)
    × ((bind_all table 2 (strict table) (some options) two_rows).1.values 1
        ≡ some (int64 (negsuc 0)))
    × ((bind_all table 2 (strict table) (some options) two_rows).1.values 2 ≡ some (utf8_text "x"))
unfolding bind_all new_bitset set_bit has_all set_options set_args set_named set_params set_param
    provide checked_against
binds_both = (refl, refl, refl)
