-- ===== src/Sqlitex/Query.antt =====
-- sqlitex/query.go: the result of a statement that yields one row. Each function reads the first
-- column by its own method of the statement, between a setup and a teardown.
mod Tests
pub mod OneRow
use Prim.Native.String.{String}
use go_sqlite.Base.{ℕ, Bool, true, false, not, Option, none, some, List, length}
use go_sqlite.Base.Int.{ℤ, is_nat}
use go_sqlite.Errors.{Error, message, Result, ok, err}
use go_sqlite.Run.{Run, ◌>>=◌, ◌>>◌, pure, fail, no_error}
use go_sqlite.Sqlitex.Statements.{Statements}

abbrev pub no_results : Error
no_results = message "sqlite: statement has no results"

abbrev pub multiple_results : Error
multiple_results = message "sqlite: statement has multiple result rows"

module _ (T : Statements) where
  open T use {
    Float, Stmt, World, step, reset, column_int64, column_text, column_float, column_bytes,
  }

  -- stmt.Reset(); return err
  abbrev pub reset_and_fail : {A : Type 0} → Stmt → Error → Run World A
  reset_and_fail stmt e w = (err e, (reset stmt w).1)

  abbrev pub after_first : Stmt → Result Bool → Run World (Unit {0})
  after_first stmt (err e) = reset_and_fail stmt e
  after_first stmt (ok false) = reset_and_fail stmt no_results
  after_first stmt (ok true) = pure tt

  -- resultSetup
  pub result_setup : Stmt → Run World (Unit {0})
  result_setup stmt w = after_first stmt (step stmt w).0 (step stmt w).1

  abbrev pub after_second : Stmt → Result Bool → Run World (Unit {0})
  after_second stmt (err e) = reset_and_fail stmt e
  after_second stmt (ok true) = reset_and_fail stmt multiple_results
  after_second stmt (ok false) = λ w. (no_error (reset stmt w).0, (reset stmt w).1)

  -- resultTeardown
  pub result_teardown : Stmt → Run World (Unit {0})
  result_teardown stmt w = after_second stmt (step stmt w).0 (step stmt w).1

  -- The common body of the functions.
  pub result_of : {A : Type 0} → (World → A) → Stmt → Run World A
  result_of column stmt = do
    result_setup stmt
    res ← (λ w. (ok (column w), w))
    result_teardown stmt
    pure res

  -- ResultInt64
  pub result_int64 : Stmt → Run World ℤ
  result_int64 stmt = result_of (column_int64 stmt 0) stmt

  -- ResultInt: `int` has 64 bits.
  pub result_int : Stmt → Run World ℤ
  result_int stmt = result_int64 stmt

  -- ResultBool
  pub result_bool : Stmt → Run World Bool
  result_bool stmt = do res ← result_int64 stmt; pure (not (is_nat res 0))

  -- ResultText
  pub result_text : Stmt → Run World String
  result_text stmt = result_of (column_text stmt 0) stmt

  -- ResultFloat
  pub result_float : Stmt → Run World Float
  result_float stmt = result_of (column_float stmt 0) stmt

  -- ResultBytes, for a buffer of a length: what is copied into it, whose length is returned
  pub result_bytes : Stmt → ℕ → Run World (List ℕ)
  result_bytes stmt n = result_of (column_bytes stmt 0 n) stmt
