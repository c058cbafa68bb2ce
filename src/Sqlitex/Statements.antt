-- ===== src/Sqlitex/Statements.antt =====
-- What package sqlitex uses of prepared statements. `Statements` has the calls, each with the world
-- passed along: the connection, and what the caller's callbacks change. `StatementLaws` has what
-- is documented of them.
pub mod Memory
use Prim.Native.String.{String}
use go_sqlite.Base.{ℕ, suc, ◌≡◌, ◌≢◌, Bool, true, false, Option, none, some, List, ◌+◌}
use go_sqlite.Base.Int.{ℤ}
use go_sqlite.Errors.{Error, Result, ok, err}

-- What the Bind methods give to a parameter.
pub data Binding (F : Type 0) : Type 0 where
  int64 : ℤ → Binding F
  float : F → Binding F
  utf8_text : String → Binding F
  boolean : Bool → Binding F
  bytes : List ℕ → Binding F
  null : Binding F

pub record Statements : Type 1 where
  -- float64
  pub Float : Type 0
  pub Stmt : Type 0
  pub World : Type 0
  -- conn.Prepare(query) and conn.PrepareTransient(query), with the number of trailing bytes
  pub prepare : String → World → Result Stmt × World
  pub prepare_transient : String → World → Result (Stmt × ℕ) × World
  pub finalize : Stmt → World → Option Error × World
  pub bind_param_count : Stmt → ℕ
  -- The name of a parameter, from 1 on; "" if it has none.
  pub bind_param_name : Stmt → ℕ → String
  -- BindInt64, BindFloat, BindText, BindBool, BindBytes, BindNull; the statement keeps the first error.
  pub bind : Stmt → ℕ → Binding Float → World → World
  pub step : Stmt → World → Result Bool × World
  pub reset : Stmt → World → Option Error × World
  pub column_int64 : Stmt → ℕ → World → ℤ
  pub column_text : Stmt → ℕ → World → String
  pub column_float : Stmt → ℕ → World → Float
  -- The bytes that ColumnBytes copies into a buffer of a length.
  pub column_bytes : Stmt → ℕ → ℕ → World → List ℕ
  -- strings.TrimSpace, and the decimal digits that %d prints
  pub trim_space : String → String
  pub decimal : ℕ → String
  -- Whether stmt.bindErr is nil.
  pub binds_went : Stmt → World → Bool
  -- What a parameter is bound to, and the number of rows that a statement has still to yield.
  pub bound : Stmt → ℕ → World → Option (Binding Float)
  pub rows_left : Stmt → World → ℕ

module _ (T : Statements) where
  open T use {Stmt, World, Float, bind, step, binds_went, bound, rows_left}

  pub record StatementLaws : Type 0 where
    pub bound_self :
        (s : Stmt) (i : ℕ) (b : Binding Float) (w : World)
        → binds_went s (bind s i b w) ≡ true
        → bound s i (bind s i b w) ≡ some b
    pub bound_other :
        (s : Stmt) (i j : ℕ) (b : Binding Float) (w : World)
        → j ≢ i
        → bound s j (bind s i b w) ≡ bound s j w
    pub row_taken :
        (s : Stmt) (w : World)
        → (step s w).0 ≡ ok true
        → rows_left s w ≡ suc (rows_left s (step s w).1)
    pub rows_done : (s : Stmt) (w : World) → (step s w).0 ≡ ok false → rows_left s w ≡ 0
    -- An error of a binding stays, and Step returns it.
    pub went_before :
        (s : Stmt) (i : ℕ) (b : Binding Float) (w : World)
        → binds_went s (bind s i b w) ≡ true
        → binds_went s w ≡ true
    pub failure_shows :
        (s : Stmt) (w : World) (row : Bool) → (step s w).0 ≡ ok row → binds_went s w ≡ true
