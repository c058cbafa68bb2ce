-- ===== src/Sqlitex/Savepoint/Opening.antt =====
-- What the functions that open a savepoint or a transaction hand back.
use Prim.Native.String.{String}
use go_sqlite.Base.{◌≡◌, refl, ◌⊎◌, inl, inr, Option, none, some, false, [], ◌∷◌, Bool-cases}
use go_sqlite.Errors.{Error}
use go_sqlite.Sqlitex.Database.{Database, DatabaseLaws, Mode, save, begin, RolledBack, Unchanged}
use go_sqlite.Sqlitex.Savepoint.{
  ends_savepoint, ends_transaction, Begun, began, not_begun, begun_by, savepoint, transaction,
  codes, has_quote,
}
use go_sqlite.Sqlitex.Savepoint.Nested.{IsInside}

module _ (D : Database) where
  open D use {Conn, db, frames}

  -- The function that ends it is right for what was opened, or nothing was opened.
  abbrev pub SavepointOpened : String → Conn → Begun × Conn → Type 0
  SavepointOpened n c (began f, c') =
      (f ≡ ends_savepoint n) × (has_quote (codes n) ≡ false) × IsInside D n (frames c) (db c') c'
  SavepointOpened n c (not_begun e, c') = Unchanged D c c' ⊎ RolledBack D c c'

  abbrev pub TransactionOpened : Conn → Begun × Conn → Type 0
  TransactionOpened c (began f, c') =
      (f ≡ ends_transaction) × (frames c ≡ []) × (frames c' ≡ (none, db c') ∷ [])
  TransactionOpened c (not_begun e, c') = Unchanged D c c' ⊎ RolledBack D c c'

module _ (D : Database) (laws : DatabaseLaws D) where
  open D use {Conn, db, frames, execute}

  saved :
      (n : String) (c : Conn) (r : Option Error)
      → has_quote (codes n) ≡ false
      → (execute (save n) c).0 ≡ r
      → SavepointOpened D n c (begun_by D (ends_savepoint n) (r, (execute (save n) c).1))
  saved n c none plain e =
      (refl, plain, record { inner = []; around = laws.saved n c e; innermost = tt })
  saved n c (some x) plain e = laws.failed (save n) c x e

  -- `savepoint` opens a savepoint of the name at the contents that it finds, inside what was open, and
  -- hands back the function that ends it; a name with a quotation mark is refused and changes nothing; where
  -- SQLite refuses, nothing was opened.
  pub savepoint-SavepointOpened : (n : String) (c : Conn) → SavepointOpened D n c (savepoint D n c)
  unfolding savepoint
  savepoint-SavepointOpened n c = elim (Bool-cases (has_quote (codes n))) [
    | inl quoted ↦ rw quoted (inl (refl, refl))
    | inr plain ↦ rw plain (saved n c (execute (save n) c).0 plain refl)
  ]

  begun :
      (m : Mode) (c : Conn) (r : Option Error)
      → (execute (begin m) c).0 ≡ r
      → TransactionOpened D c (begun_by D ends_transaction (r, (execute (begin m) c).1))
  begun m c none e = let (a, b) = laws.begun m c e in (refl, a, b)
  begun m c (some x) e = laws.failed (begin m) c x e

  -- `transaction` opens a transaction at the contents that it finds, where none was open, and hands
  -- back the function that ends it; or nothing was opened.
  pub transaction-TransactionOpened :
      (m : Mode) (c : Conn) → TransactionOpened D c (transaction D m c)
  unfolding transaction
  transaction-TransactionOpened m c = begun m c (execute (begin m) c).0 refl
