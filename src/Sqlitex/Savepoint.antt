-- ===== src/Sqlitex/Savepoint.antt =====
-- sqlitex/savepoint.go: the functions that begin a transaction or a savepoint, and those, deferred
-- by the caller, that end it. A deferred function finds the panic that unwinds the stack, if any,
-- and the error that its argument points to; it returns or panics, and leaves an error behind.
pub mod Transaction
pub mod Nested
pub mod Opening
mod Tests
use Prim.Native.String
use Prim.Native.String.{String}
use Prim.Native.Char.{code}
use go_sqlite.Base.{
  List, [], ◌∷◌, ◌||◌, ◌==◌, ◌⊎◌, inl, inr, ℕ, ◌≡◌, ◌&&◌, not, Bool, true, false, Option, none,
  some, if◌then◌else◌,
}
use go_sqlite.Errors.{Error, message, sqlite, ResultCode, result_interrupt, err_code}
use go_sqlite.Sqlitex.Database.{
  Database, Sql, Mode, save, release, rollback_to, begin, commit, rollback, deferred, immediate,
  exclusive,
}

pub data Panic : Type 0 where
  -- A panic of the caller's code.
  user : ℕ → Panic
  -- A rollback failed: the error before it, if any, and the rollback's.
  cleanup : Option Error → Error → Panic
  -- The transaction could not begin.
  start : Error → Panic

pub data Exit : Type 0 where
  returns : Exit
  panics : Panic → Exit

-- The code points of a text.
abbrev pub codes : String → List ℕ
codes String.[] = []
codes (String.◌∷◌ c s) = code c ∷ codes s

abbrev pub has {ℓ} : {A : Type ℓ} → Option A → Bool
has none = false
has (some a) = true

-- if recoverP != nil { panic(recoverP) }; return
abbrev pub resume : Option Panic → Exit
resume none = returns
resume (some p) = panics p

-- A quotation mark: byte 34.
abbrev pub has_quote : List ℕ → Bool
has_quote [] = false
has_quote (b ∷ bs) = b == 34 || has_quote bs

-- sqlite.ErrCode(err) == sqlite.ResultInterrupt
abbrev pub is_interrupt : Error → Bool
is_interrupt (sqlite result_interrupt) = true
is_interrupt _ = false

-- The functions that the package hands to its callers.
pub data EndFn : Type 0 where
  ends_savepoint : String → EndFn
  ends_transaction : EndFn
  -- func(errp *error) { if *errp == nil { *errp = err } }
  reports : Error → EndFn
  does_nothing : EndFn

-- The pair that Go returns: a function, or an error.
pub data Begun : Type 0 where
  began : EndFn → Begun
  not_begun : Error → Begun

module _ (D : Database) where
  open D use {Conn, execute, autocommit, set_interrupt}

  -- How the function ends, what *errp is then, and the connection.
  pub record Ended : Type 0 where
    pub exit : Exit
    pub errp : Option Error
    pub conn : Conn

  -- defer conn.SetInterrupt(oldDoneCh)
  abbrev pub restoring : Option ℕ → Ended → Ended
  restoring old r = record r { conn = (set_interrupt old r.conn).1 }

  -- if err != nil { panic(orig + err.Error()) }, and the panic that is resumed otherwise
  abbrev pub finish_undo : Option Panic → Option Error → Option Error × Conn → Ended
  finish_undo recovered errp (some e, c) = record {
    exit = panics (cleanup errp e);
    errp = errp;
    conn = c;
  }
  finish_undo recovered errp (none, c) = record { exit = resume recovered; errp = errp; conn = c }

  -- The error path of a savepoint behind ROLLBACK TO.
  abbrev pub then_release : String → Option Panic → Option Error → Option Error × Conn → Ended
  then_release name recovered errp (some e, c) = record {
    exit = panics (cleanup errp e);
    errp = errp;
    conn = c;
  }
  then_release name recovered errp (none, c) = finish_undo recovered errp (execute (release name) c)

  -- The error path of a savepoint: its statements run without an interrupt.
  pub undo_savepoint : String → Option Panic → Option Error → Conn → Ended
  undo_savepoint name recovered errp c =
      restoring (set_interrupt none c).0
        (then_release name recovered errp (execute (rollback_to name) (set_interrupt none c).1))

  -- The success path behind RELEASE.
  abbrev pub after_release : String → Option Error × Conn → Ended
  after_release name (none, c) = record { exit = returns; errp = none; conn = c }
  after_release name (some e, c) =
      if autocommit c
      then record { exit = returns; errp = some e; conn = c }
      else undo_savepoint name none (some e) c

  -- The function that `savepoint` returns.
  pub end_savepoint : String → Option Panic → Option Error → Conn → Ended
  end_savepoint name recovered errp c =
      if autocommit c
      then record { exit = resume recovered; errp = errp; conn = c }
      else if not (has errp) && not (has recovered)
      then after_release name (execute (release name) c)
      else undo_savepoint name recovered errp c

  pub undo_transaction : Option Panic → Option Error → Conn → Ended
  undo_transaction recovered errp c =
      restoring (set_interrupt none c).0
        (finish_undo recovered errp (execute rollback (set_interrupt none c).1))

  abbrev pub after_commit : Option Error × Conn → Ended
  after_commit (none, c) = record { exit = returns; errp = none; conn = c }
  after_commit (some e, c) =
      if autocommit c
      then record { exit = returns; errp = some e; conn = c }
      else undo_transaction none (some e) c

  -- The function that `transaction` returns.
  pub end_transaction : Option Panic → Option Error → Conn → Ended
  end_transaction recovered errp c =
      if autocommit c
      then record { exit = resume recovered; errp = errp; conn = c }
      else if not (has errp) && not (has recovered)
      then after_commit (execute commit c)
      else undo_transaction recovered errp c

  unfoldable pub run_end : EndFn → Option Panic → Option Error → Conn → Ended
  run_end (ends_savepoint name) recovered errp c = end_savepoint name recovered errp c
  run_end ends_transaction recovered errp c = end_transaction recovered errp c
  run_end (reports e) recovered none c = record { exit = resume recovered; errp = some e; conn = c }
  run_end (reports e) recovered (some e') c = record {
    exit = resume recovered;
    errp = some e';
    conn = c;
  }
  run_end does_nothing recovered errp c = record { exit = resume recovered; errp = errp; conn = c }

  abbrev pub begun_by : EndFn → Option Error × Conn → Begun × Conn
  begun_by f (none, c) = (began f, c)
  begun_by f (some e, c) = (not_begun e, c)

  pub savepoint : String → Conn → Begun × Conn
  savepoint name c =
      if has_quote (codes name)
      then (not_begun (message "sqlitex.Savepoint: invalid name"), c)
      else begun_by (ends_savepoint name) (execute (save name) c)

  unfoldable pub transaction : Mode → Conn → Begun × Conn
  transaction mode c = begun_by ends_transaction (execute (begin mode) c)

  -- What Save and Transaction do with the pair: an interrupt is reported later, any other error is
  -- a panic.
  abbrev pub or_panic : Begun × Conn → (EndFn ⊎ Panic) × Conn
  or_panic (began f, c) = (inl f, c)
  or_panic (not_begun e, c) = if is_interrupt e then (inl (reports e), c) else (inr (start e), c)

  -- Save; the name is that of the calling function.
  pub save_as : String → Conn → (EndFn ⊎ Panic) × Conn
  save_as name c = or_panic (savepoint name c)

  pub deferred_transaction : Conn → (EndFn ⊎ Panic) × Conn
  deferred_transaction c = or_panic (transaction deferred c)

  -- What ImmediateTransaction and ExclusiveTransaction return.
  abbrev pub or_error : Begun × Conn → (EndFn × Option Error) × Conn
  or_error (began f, c) = ((f, none), c)
  or_error (not_begun e, c) = ((does_nothing, some e), c)

  unfoldable pub immediate_transaction : Conn → (EndFn × Option Error) × Conn
  immediate_transaction c = or_error (transaction immediate c)

  pub exclusive_transaction : Conn → (EndFn × Option Error) × Conn
  exclusive_transaction c = or_error (transaction exclusive c)
