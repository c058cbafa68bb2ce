-- ===== src/Sqlitex/Exec/Rows.antt =====
-- The rows that a statement is stepped through.

use go_sqlite.Base.{◌≡◌, ℕ, suc, true, false, Option}
use go_sqlite.Errors.{Error, ok, err}
use go_sqlite.Sqlitex.Attempt.{Attempt, value, failed, Ends}
use go_sqlite.Sqlitex.Statements.{Statements, StatementLaws}
use go_sqlite.Sqlitex.Exec.{Flags, ExecOptions, on_row}
use go_sqlite.Sqlitex.Exec.Arguments.{Supplied, Refused}
use go_sqlite.Sqlitex.Exec.Given.{argument}

module _ (T : Statements) where
  open T use {Stmt, World, step, rows_left}

  abbrev pub Callback : Type 0
  Callback = Option (Stmt → World → Option Error × World)

  -- From one world to another by stepping to a row and calling the function on it, a number of times.
  pub data Visits (f : Callback) (stmt : Stmt) (w : World) : ℕ → World → Type 0 where
    no_row : Visits f stmt w 0 w
    next_row :
        {k : ℕ} {w1 : World}
        → Visits f stmt w k w1
        → (step stmt w1).0 ≡ ok true
        → (on_row T f stmt (step stmt w1).1).0 ≡ value tt
        → Visits f stmt w (suc k) (on_row T f stmt (step stmt w1).1).1

  -- The function was called on every row, each time with success.
  pub record AllVisited (f : Callback) (stmt : Stmt) (w w' : World) : Type 0 where
    pub last : World
    pub visits : Visits f stmt w (rows_left stmt w) last
    pub no_more : (step stmt last).0 ≡ ok false
    pub after : w' ≡ (step stmt last).1

  -- The first error is that of a step, or that of the function on a row; no row comes after it.
  pub data StoppedBy (f : Callback) (stmt : Stmt) (w : World) : Error → World → Type 0 where
    step_failed :
        {e : Error} {k : ℕ} {w1 : World}
        → Visits f stmt w k w1
        → (step stmt w1).0 ≡ err e
        → StoppedBy f stmt w e (step stmt w1).1
    callback_failed :
        {e : Error} {k : ℕ} {w1 : World}
        → Visits f stmt w k w1
        → (step stmt w1).0 ≡ ok true
        → (on_row T f stmt (step stmt w1).1).0 ≡ failed e
        → StoppedBy f stmt w e (on_row T f stmt (step stmt w1).1).1

  -- The function leaves the statement at its row.
  abbrev pub LeavesRows : Callback → Stmt → Type 0
  LeavesRows f stmt = (w : World) → rows_left stmt (on_row T f stmt w).1 ≡ rows_left stmt w

module _ (T : Statements) (laws : StatementLaws T) (f : Callback T) (stmt : T.Stmt)
    (leaves : LeavesRows T f stmt) where
  open T use {Stmt, World, step, rows_left}

  abbrev pub RowsEnd : World → Attempt (Unit {0}) × World → Type 0
  RowsEnd w = Ends (λ _ w'. AllVisited T f stmt w w') (λ e w'. StoppedBy T f stmt w e w')

module _ (T : Statements) (laws : StatementLaws T) where
  open T use {Stmt, World, step, binds_went, rows_left}

  -- No binding failed, the statement got its arguments, and then all of its rows were visited.
  pub record Executed (stmt : Stmt) (flags : Flags) (o : ExecOptions T) (w' : World) : Type 0 where
    pub start : World
    pub went : binds_went stmt start ≡ true
    pub supplied : Supplied T laws stmt flags (argument T stmt o) start
    pub visited : AllVisited T o.result_func stmt start w'

  -- The arguments were refused, for one of the reasons; or the statement got them, unless a call of Bind failed,
  -- and a step or the function failed on a row.
  pub data ExecFailed (stmt : Stmt) (flags : Flags) (o : ExecOptions T)
      : Error → World → Type 0 where
    refused : {e : Error} {w' : World} → Refused T laws stmt flags o → ExecFailed stmt flags o e w'
    stopped :
        {e : Error} {start w' : World}
        → Supplied T laws stmt flags (argument T stmt o) start
        → StoppedBy T o.result_func stmt start e w'
        → ExecFailed stmt flags o e w'
