-- ===== src/Sqlitex/Savepoint/Nested.antt =====
-- A savepoint is released or undone as a whole, and the transactions around it stay open.
use Prim.Native.String.{String}
use go_sqlite.Base.{◌≡◌, ◌⊎◌, Option, none, some, true, List, ◌∷◌, ◌++◌, ◌||◌}
use go_sqlite.Errors.{Error}
use go_sqlite.Sqlitex.Database.{Database, release, rollback_to, RolledBack, Unchanged, NotNamed}
use go_sqlite.Sqlitex.Savepoint.{Panic, cleanup, returns, panics, has, resume, Ended}

module _ (D : Database) (n : String) (outer : List (Option String × D.Db)) (d : D.Db) where
  open D use {Conn, Db, db, frames, interrupt, execute}

  -- The innermost savepoint of the name was made at contents `d` inside the transactions `outer`.
  pub record IsInside (c : Conn) : Type 0 where
    pub inner : List (Option String × Db)
    pub around : frames c ≡ inner ++ (some n, d) ∷ outer
    pub innermost : NotNamed D n inner

  -- The changes since the savepoint are kept, as part of what is around it.
  pub record Released (c : Conn) (recovered : Option Panic) (errp : Option Error) (r : Ended D)
      : Type 0 where
    pub no_panic : recovered ≡ none
    pub no_error : errp ≡ none
    pub exit : r.exit ≡ returns
    pub errp_left : r.errp ≡ none
    pub closed : frames r.conn ≡ outer
    pub kept : db r.conn ≡ db c

  -- The changes since the savepoint are undone, or SQLite has undone the whole transaction; an error
  -- that was there is still there, and there is an error or a panic, which goes on.
  pub record UndoneTo (c : Conn) (recovered : Option Panic) (errp : Option Error) (r : Ended D)
      : Type 0 where
    pub exit : r.exit ≡ resume recovered
    pub failure : (has r.errp || has recovered) ≡ true
    pub errp_kept : (e : Error) → errp ≡ some e → r.errp ≡ some e
    pub undone : ((frames r.conn ≡ outer) × (db r.conn ≡ d)) ⊎ RolledBack D c r.conn

  -- ROLLBACK TO failed, or the RELEASE behind it, which the function ran with no interrupt on the connection
  -- with what was changed; and the function panics with that error and with the one before it.
  pub record StuckInside (c : Conn) (errp : Option Error) (r : Ended D) : Type 0 where
    pub before : Conn
    pub first : Option Error
    pub why : Error
    pub same : Unchanged D c before
    pub no_interrupt : interrupt before ≡ none
    pub undo_failed :
        ((execute (rollback_to n) before).0 ≡ some why)
        ⊎ (((execute (rollback_to n) before).0 ≡ none)
            × ((execute (release n) (execute (rollback_to n) before).1).0 ≡ some why))
    pub errp_kept : (e : Error) → errp ≡ some e → first ≡ some e
    pub exit : r.exit ≡ panics (cleanup first why)

  abbrev pub SavepointOutcome : Conn → Option Panic → Option Error → Ended D → Type 0
  SavepointOutcome c recovered errp r =
      (Released c recovered errp r ⊎ UndoneTo c recovered errp r ⊎ StuckInside c errp r)
      × (interrupt r.conn ≡ interrupt c)
