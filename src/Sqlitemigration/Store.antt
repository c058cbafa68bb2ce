-- ===== src/Sqlitemigration/Store.antt =====
-- What package sqlitemigration uses of a connection besides its transactions: prepared statements,
-- PRAGMAs and scripts. SQLite runs them: `Store` has the calls, and `StoreLaws` what is documented
-- of them. Scripts hold no statements that begin or end transactions.
pub mod Memory
use Prim.Native.String.{String}
use go_sqlite.Base.{ℕ, ◌≡◌, ◌⊎◌, Bool, Option, none, some}
use go_sqlite.Base.Int.{ℤ, pos}
use go_sqlite.Errors.{Error, Result, ok, err}
use go_sqlite.Sqlitex.Database.{Database, Sql, begin, Mode, base, Unchanged, RolledBack}

pub data Query : Type 0 where
  -- VALUES ((SELECT COUNT(*) FROM sqlite_master) > 0);
  has_schema : Query
  -- PRAGMA application_id; PRAGMA user_version; PRAGMA foreign_keys;
  application_id user_version foreign_keys : Query

pub data Pragma : Type 0 where
  foreign_keys_off foreign_keys_on : Pragma
  set_application_id : ℤ → Pragma

pub data Script : Type 0 where
  -- fmt.Sprintf("%s;\nPRAGMA user_version = %d;\n", migration, version)
  with_version : String → ℕ → Script
  alone : String → Script

pub record Store (D : Database) : Type 1 where
  -- stmt.Step() and stmt.Reset(); the statements yield no rows.
  pub step : Sql → D.Conn → Option Error × D.Conn
  pub reset : Sql → D.Conn → Option Error × D.Conn
  -- conn.PrepareTransient
  pub prepare : Sql → D.Conn → Option Error × D.Conn
  -- sqlitex.ExecuteTransient with a ResultFunc that keeps the one column
  pub query : Query → D.Conn → Result ℤ × D.Conn
  pub pragma : Pragma → D.Conn → Option Error × D.Conn
  -- sqlitex.ExecScript where it returns; that Save, or the end of its savepoint, panics is left out.
  pub exec_script : Script → D.Conn → Option Error × D.Conn
  -- What a script makes of the contents, the user version and the application ID in them.
  pub run : Script → D.Db → D.Db
  pub version : D.Db → ℤ
  pub mark : ℤ → D.Db → D.Db
  -- The application ID in the contents, and what has_schema answers of them: 0 without any table.
  pub app_id : D.Db → ℤ
  pub tables : D.Db → ℤ
  -- What other processes may have made of the contents when a transaction begins.
  pub Others : D.Db → D.Db → Type 0

-- The contents that other connections see: those at the start of the transaction that is open.
abbrev pub committed : (D : Database) → D.Conn → D.Db
committed D c = base D (D.frames c) (D.db c)

module _ (D : Database) (S : Store D) where
  open D use {Conn, Db, db, frames}

  -- A call that fails is undone, or SQLite rolls the whole transaction back.
  abbrev pub Refused : Conn → Conn → Type 0
  Refused c c' = Unchanged D c c' ⊎ RolledBack D c c'

  pub record StoreLaws : Type 0 where
    pub step_eq : (s : Sql) (c : Conn) → S.step s c ≡ D.execute s c
    pub reset_ok :
        (s : Sql) (c : Conn)
        → (S.step s c).0 ≡ none
        → ((S.reset s (S.step s c).1).0 ≡ none)
          × Unchanged D (S.step s c).1 (S.reset s (S.step s c).1).1
    pub prepared : (s : Sql) (c : Conn) → Unchanged D c (S.prepare s c).1
    pub answered :
        (q : Query) (c : Conn) (a : ℤ) → (S.query q c).0 ≡ ok a → Unchanged D c (S.query q c).1
    pub version_answered :
        (c : Conn) (a : ℤ) → (S.query user_version c).0 ≡ ok a → a ≡ S.version (db c)
    pub app_id_answered :
        (c : Conn) (a : ℤ) → (S.query application_id c).0 ≡ ok a → a ≡ S.app_id (db c)
    pub tables_answered : (c : Conn) (a : ℤ) → (S.query has_schema c).0 ≡ ok a → a ≡ S.tables (db c)
    pub not_answered :
        (q : Query) (c : Conn) (e : Error) → (S.query q c).0 ≡ err e → Refused c (S.query q c).1
    pub foreign_keys_set :
        (c : Conn)
        → Unchanged D c (S.pragma foreign_keys_off c).1
          × Unchanged D c (S.pragma foreign_keys_on c).1
    pub marked :
        (n : ℤ) (c : Conn)
        → (S.pragma (set_application_id n) c).0 ≡ none
        → (frames (S.pragma (set_application_id n) c).1 ≡ frames c)
          × (db (S.pragma (set_application_id n) c).1 ≡ S.mark n (db c))
    pub not_marked :
        (n : ℤ) (c : Conn) (e : Error)
        → (S.pragma (set_application_id n) c).0 ≡ some e
        → Refused c (S.pragma (set_application_id n) c).1
    pub script_run :
        (s : Script) (c : Conn)
        → (S.exec_script s c).0 ≡ none
        → (frames (S.exec_script s c).1 ≡ frames c) × (db (S.exec_script s c).1 ≡ S.run s (db c))
    pub script_refused :
        (s : Script) (c : Conn) (e : Error)
        → (S.exec_script s c).0 ≡ some e
        → Refused c (S.exec_script s c).1
    pub version_set : (m : String) (n : ℕ) (d : Db) → S.version (S.run (with_version m n) d) ≡ pos n
    pub version_marked : (n : ℤ) (d : Db) → S.version (S.mark n d) ≡ S.version d
    pub others_at_begin :
        (m : Mode) (c : Conn)
        → (D.execute (begin m) c).0 ≡ none
        → S.Others (db c) (db (D.execute (begin m) c).1)
