-- ===== src/Sqlitex/Database.antt =====
-- What package sqlitex uses of a connection, as far as transactions go. SQLite runs the
-- statements: `Database` has the calls, and `DatabaseLaws` what SQLite documents of them.
pub mod Memory
use Prim.Native.String.{String}
use go_sqlite.Base.{ℕ, ◌≡◌, ◌⊎◌, Bool, Option, none, some, List, [], ◌∷◌, ◌++◌, is_empty}
use go_sqlite.Errors.{Error}

-- The second word of a BEGIN.
pub data Mode : Type 0 where
  deferred immediate exclusive : Mode

-- The statements that end or begin transactions; a savepoint's name is quoted in the same way in
-- each of them.
pub data Sql : Type 0 where
  save release rollback_to : String → Sql
  begin : Mode → Sql
  commit rollback : Sql

pub record Database : Type 1 where
  pub Conn : Type 0
  -- sqlitex.Execute(conn, sql, nil)
  pub execute : Sql → Conn → Option Error × Conn
  -- conn.AutocommitEnabled()
  pub autocommit : Conn → Bool
  -- conn.SetInterrupt: a channel is a number, and the old one is returned.
  pub set_interrupt : Option ℕ → Conn → Option ℕ × Conn
  -- The contents of the database as the connection sees them. Where a transaction begins, they may
  -- change: another process may have written since.
  pub Db : Type 0
  pub db : Conn → Db
  -- What a transaction may go back to, the innermost first: a BEGIN has no name.
  pub frames : Conn → List (Option String × Db)
  pub interrupt : Conn → Option ℕ

module _ (D : Database) where
  open D use {Conn, Db, db, frames}

  -- The contents when the outermost transaction began.
  abbrev pub base : List (Option String × Db) → Db → Db
  base [] d = d
  base ((n, saved) ∷ fs) d = base fs saved

  abbrev pub Unchanged : Conn → Conn → Type 0
  Unchanged c c' = (frames c' ≡ frames c) × (db c' ≡ db c)

  -- Everything since the outermost transaction began is undone, and no transaction is open.
  abbrev pub RolledBack : Conn → Conn → Type 0
  RolledBack c c' = (frames c' ≡ []) × (db c' ≡ base (frames c) (db c))

  -- No frame of the list is a savepoint of the name.
  abbrev pub NotNamed : String → List (Option String × Db) → Type 0
  NotNamed n [] = Unit {0}
  NotNamed n ((m, d) ∷ fs) = (¬ (m ≡ some n)) × NotNamed n fs

  pub record DatabaseLaws : Type 0 where
    pub autocommit_iff : (c : Conn) → D.autocommit c ≡ is_empty (frames c)
    -- A statement that fails is undone, or SQLite rolls the whole transaction back.
    pub failed :
        (s : Sql) (c : Conn) (e : Error)
        → (D.execute s c).0 ≡ some e
        → Unchanged c (D.execute s c).1 ⊎ RolledBack c (D.execute s c).1
    pub saved :
        (n : String) (c : Conn)
        → (D.execute (save n) c).0 ≡ none
        → frames (D.execute (save n) c).1 ≡ (some n, db (D.execute (save n) c).1) ∷ frames c
    pub released :
        (n : String) (c : Conn) (inner outer : List (Option String × Db)) (d : Db)
        → frames c ≡ inner ++ (some n, d) ∷ outer
        → NotNamed n inner
        → (D.execute (release n) c).0 ≡ none
        → (frames (D.execute (release n) c).1 ≡ outer) × (db (D.execute (release n) c).1 ≡ db c)
    pub rolled_back_to :
        (n : String) (c : Conn) (inner outer : List (Option String × Db)) (d : Db)
        → frames c ≡ inner ++ (some n, d) ∷ outer
        → NotNamed n inner
        → (D.execute (rollback_to n) c).0 ≡ none
        → (frames (D.execute (rollback_to n) c).1 ≡ (some n, d) ∷ outer)
          × (db (D.execute (rollback_to n) c).1 ≡ d)
    pub begun :
        (m : Mode) (c : Conn)
        → (D.execute (begin m) c).0 ≡ none
        → (frames c ≡ [])
          × (frames (D.execute (begin m) c).1 ≡ (none, db (D.execute (begin m) c).1) ∷ [])
    pub committed :
        (c : Conn)
        → (D.execute commit c).0 ≡ none
        → (frames (D.execute commit c).1 ≡ []) × (db (D.execute commit c).1 ≡ db c)
    pub rolled_back :
        (c : Conn) → (D.execute rollback c).0 ≡ none → RolledBack c (D.execute rollback c).1
    pub same_interrupt : (s : Sql) (c : Conn) → D.interrupt (D.execute s c).1 ≡ D.interrupt c
    pub interrupt_set :
        (ch : Option ℕ) (c : Conn)
        → ((D.set_interrupt ch c).0 ≡ D.interrupt c)
          × (D.interrupt (D.set_interrupt ch c).1 ≡ ch)
          × Unchanged c (D.set_interrupt ch c).1
