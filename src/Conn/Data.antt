-- ===== src/Conn/Data.antt =====
-- sqlite.go: a connection, its statements and their cache, the calls of the SQLite library, and what
-- needs none.
use go_sqlite.Base.{
  ℕ, suc, Bool, true, false, Option, none, some, List, [], ◌∷◌, ◌++◌, get_elem?, set, if◌then◌else◌,
}
use text.Mathlib.Text.{◌==◌ as str_eq}
use Prim.Native.String.{String}
use go_sqlite.Errors.{
  ResultCode, result_ok, result_row, result_interrupt, result_locked_shared_cache, Error, sqlite,
  message, to_error,
}

pub record Stmt : Type 0 where
  pub is_open : Bool
  pub handle : ℕ
  pub query : String
  pub bind_names : List String
  pub bind_err : Option Error
  pub prep_interrupt : Bool
  pub last_has_row : Bool

pub record Conn : Type 0 where
  pub is_closed : Bool
  pub stmts : List (String × ℕ)
  pub objects : List Stmt
  pub done_ch : Option ℕ

-- What sqlite3_prepare_v3 gives: an error, or the statement with the names of its parameters, and the number
-- of bytes behind it.
pub data Compiled : Type 0 where
  not_compiled : Error → Compiled
  compiled : ℕ → List String → ℕ → Compiled

pub record Library : Type 1 where
  pub World : Type 0
  pub is_done : ℕ → World → Bool
  pub compile : String → World → Compiled × World
  pub finalize_call : ℕ → World → ResultCode × World
  pub reset_call : ℕ → World → ResultCode × World
  pub clear_call : ℕ → World → ResultCode × World
  pub step_call : ℕ → World → ResultCode × World
  pub wait_for_unlock : World → ResultCode × World
  pub close_call : World → ResultCode × World

abbrev pub interrupt : Error
interrupt = sqlite result_interrupt

-- The codes that the functions tell apart.
abbrev pub is_ok : ResultCode → Bool
is_ok result_ok = true
is_ok _ = false

abbrev pub is_shared_lock : ResultCode → Bool
is_shared_lock result_locked_shared_cache = true
is_shared_lock _ = false

abbrev pub is_row : ResultCode → Bool
is_row result_row = true
is_row _ = false

abbrev pub is_interrupt : ResultCode → Bool
is_interrupt result_interrupt = true
is_interrupt _ = false

-- c.stmts[query]
abbrev pub find : String → List (String × ℕ) → Option ℕ
find q [] = none
find q ((k, i) ∷ m) = let rest = find q m in if str_eq k q then some i else rest

-- delete(c.stmts, query)
abbrev pub erase : String → List (String × ℕ) → List (String × ℕ)
erase q [] = []
erase q ((k, i) ∷ m) = let rest = erase q m in if str_eq k q then rest else (k, i) ∷ rest

abbrev pub update : ℕ → Stmt → Conn → Conn
update i s c = record c { objects = set c.objects i s }

abbrev pub add_object : Stmt → Conn → Conn
add_object s c = record c { objects = c.objects ++ s ∷ [] }

-- "sqlite: reset: %w", where nil is wrapped too
abbrev pub wrapped : Option Error → Error
wrapped none = message "%!w(<nil>)"
wrapped (some e) = e

-- The query of the first statement of the cache that is in the process of returning rows.
abbrev pub running_or : Option String → Option Stmt → Option String
running_or rest none = rest
running_or rest (some s) = if s.last_has_row then some s.query else rest

abbrev pub running : List Stmt → List (String × ℕ) → Option String
running objects [] = none
running objects ((k, i) ∷ m) = running_or (running objects m) (get_elem? objects i)

-- (*Conn).CheckReset
unfoldable pub check_reset : Conn → Option String
check_reset c = running c.objects c.stmts

-- (*Stmt).handleBindErr
unfoldable pub handle_bind_err : ResultCode → Stmt → Stmt
handle_bind_err code s = elim (s.bind_err) [
  | some e ↦ s
  | none ↦ record s { bind_err = to_error code }
]

-- for i, name := range stmt.bindNames: the index from 1
abbrev pub name_index : String → ℕ → List String → Option ℕ
name_index p i [] = none
name_index p i (n ∷ names) =
    let rest = name_index p (suc i) names in if str_eq n p then some (suc i) else rest

abbrev pub unknown_parameter : Stmt → Stmt
unknown_parameter s = elim (s.bind_err) [
  | some e ↦ s
  | none ↦ record s { bind_err = some (message "unknown parameter") }
]

-- (*Stmt).findBindName
unfoldable pub find_bind_name : String → Stmt → ℕ × Stmt
find_bind_name p s = elim (name_index p 0 s.bind_names) [
  | some i ↦ (i, s)
  | none ↦ (0, unknown_parameter s)
]
