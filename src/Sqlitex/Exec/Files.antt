-- ===== src/Sqlitex/Exec/Files.antt =====
-- Statements from files, against statements from strings.
use Prim.Native.String.{String}
use go_sqlite.Base.{◌≡◌, refl, ℕ, Option, none, some}
use go_sqlite.Errors.{Error, message, Result, ok, err}
use go_sqlite.Sqlitex.Attempt.{
  Attempt, value, failed, index_out_of_range, out_of_fuel, from_result, continue,
}
use go_sqlite.Sqlitex.Statements.{Statements}
use go_sqlite.Sqlitex.Exec.{
  ExecOptions, strict, exec, first_error, first_error_fs, and_reset, and_reset_fs,
}

-- The same result, or the error that Reset returned in one of them, and one that does not wrap it in
-- the other.
pub data SameButReset : Attempt (Unit {0}) → Attempt (Unit {0}) → Type 0 where
  same : {a : Attempt (Unit {0})} → SameButReset a a
  reset_lost :
      (e : Error) → SameButReset (failed e) (failed (message "sqlitex: execute: %!w(<nil>)"))

module _ (T : Statements) where
  open T use {Stmt, World, prepare, reset, trim_space}

  errors :
      (r : Attempt (Unit {0})) (o : Option Error)
      → SameButReset (first_error T r o) (first_error_fs T r o)
  errors (value _) none = same
  errors (value _) (some e) = reset_lost e
  errors (failed e) o = same
  errors index_out_of_range o = same
  errors out_of_fuel o = same

  prepared :
      (fuel : ℕ) (opts : Option (ExecOptions T)) (r : Result Stmt) (w : World)
      → SameButReset
          (continue
            (from_result r)
            (λ stmt. and_reset T stmt (exec T fuel stmt (strict T) opts))
            w).0
          (continue
            (from_result r)
            (λ stmt. and_reset_fs T stmt (exec T fuel stmt (strict T) opts))
            w).0
        × ((continue
              (from_result r)
              (λ stmt. and_reset_fs T stmt (exec T fuel stmt (strict T) opts))
              w).1
            ≡ (continue
                (from_result r)
                (λ stmt. and_reset T stmt (exec T fuel stmt (strict T) opts))
                w).1)
  prepared fuel opts (err e) w = (same, refl)
  prepared fuel opts (ok stmt) w = (errors _ _, refl)
