-- ===== src/Sqlitex/Exec.antt =====
-- sqlitex/exec.go: arguments are bound to a statement, which is then stepped through its rows. The
-- flags are a record of their bits. Maps are association lists; an error that wraps another is the same error.

pub mod Given
pub mod Unused
pub mod Loops
pub mod Arguments
pub mod Files
pub mod Rows
mod Tests
use Prim.Native.String
use Prim.Native.String.{String}
use text.Mathlib.Text.{◌==◌ as str_eq}
use go_sqlite.Base.{
  ℕ, zero, suc, ◌+◌, ◌-◌, ◌^◌, Bool, true, false, ◌&&◌, not, Option, none, some, List, [], ◌∷◌, map,
  length, ltb, if◌then◌else◌, is_empty,
}
use go_sqlite.Base.Int.{ℤ, to_int64}
use go_sqlite.Errors.{Error, sqlite, message, result_range, Result, ok, err}
use go_sqlite.Sqlitex.Attempt.{
  Attempt, value, failed, index_out_of_range, out_of_fuel, Act, ◌>>=◌, ◌>>◌, pure, fail, call,
  checked,
}
use go_sqlite.Sqlitex.Bitset.{Bitset, new_bitset, set_bit, has_all, first_missing}
use go_sqlite.Sqlitex.Statements.{
  Statements, Binding, int64, float, utf8_text, boolean, bytes, null,
}

-- An argument by its kind, as reflection finds it; any other kind is what fmt.Sprint prints.
pub data Arg (F : Type 0) : Type 0 where
  int : ℤ → Arg F
  uint : ℕ → Arg F
  floating : F → Arg F
  string : String → Arg F
  bool : Bool → Arg F
  byte_slice : List ℕ → Arg F
  invalid : Arg F
  printed : String → Arg F

-- setArg: what the argument is bound as
abbrev pub binding_of : {F : Type 0} → Arg F → Binding F
binding_of (int z) = int64 z
binding_of (uint n) = int64 (to_int64 n)
binding_of (floating x) = float x
binding_of (string s) = utf8_text s
binding_of (bool b) = boolean b
binding_of (byte_slice bs) = bytes bs
binding_of invalid = null
binding_of (printed s) = utf8_text s

pub record Flags : Type 0 where
  pub forbid_missing : Bool
  pub forbid_extra : Bool

module _ {ℓ} {A : Type ℓ} where
  -- args[name]
  abbrev pub lookup : String → List (String × A) → Option A
  lookup k [] = none
  lookup k ((j, v) ∷ m) = if str_eq j k then some v else lookup k m

  abbrev pub keys : List (String × A) → List String
  keys [] = []
  keys ((j, v) ∷ m) = j ∷ keys m

-- delete(set, name)
abbrev pub delete : String → List String → List String
delete k [] = []
delete k (j ∷ js) = let rest = delete k js in if str_eq j k then rest else j ∷ rest

module _ (T : Statements) where
  open T use {
    Float, Stmt, World, prepare, prepare_transient, finalize, bind_param_count, bind_param_name,
    bind, step, reset, decimal, trim_space,
  }

  pub record ExecOptions : Type 0 where
    pub args : List (Arg Float)
    pub named : List (String × Arg Float)
    pub result_func : Option (Stmt → World → Option Error × World)

  -- provided.set(n)
  abbrev pub added : Option Bitset → Attempt Bitset
  added none = index_out_of_range
  added (some bs) = value bs

  -- provided.set(i); setArg(stmt, i+1, arg)
  pub provide : Stmt → Bitset → ℕ → Arg Float → Act World Bitset
  provide stmt provided i arg = do
    bs ← (λ w. (added (set_bit provided i), w))
    λ w. (value bs, bind stmt (suc i) (binding_of arg) w)

  -- for i, arg := range opts.Args
  pub set_args : Stmt → ℕ → List (Arg Float) → Bitset → Act World Bitset
  set_args stmt i [] provided = pure provided
  set_args stmt i (a ∷ as') provided = do
    bs ← provide stmt provided i a
    set_args stmt (suc i) as' bs

  -- The arguments that no parameter has used, and the parameters that have an argument.
  abbrev pub Named : Type 0
  Named = List String × Bitset

  -- In the body of setNamed's loop, behind arg, present := args[name]; the parameter is i + 1.
  abbrev pub set_found : Stmt → Flags → ℕ → String → Named → Option (Arg Float) → Act World Named
  set_found stmt flags i name (unused, provided) none =
      if flags.forbid_missing
      then fail (message (String.◌++◌ "missing parameter " name))
      else pure (unused, provided)
  set_found stmt flags i name (unused, provided) (some a) = do
    bs ← provide stmt provided i a
    pure (delete name unused, bs)

  -- The body of setNamed's loop.
  pub set_param : Stmt → Flags → List (String × Arg Float) → ℕ → Named → Act World Named
  set_param stmt flags args i n =
      let name = bind_param_name stmt (suc i) in
      if str_eq name "" then pure n else set_found stmt flags i name n (lookup name args)

  -- for i, count := 1, stmt.BindParamCount(); i <= count; i++, with the rounds that are left
  pub set_params : Stmt → Flags → List (String × Arg Float) → ℕ → ℕ → Named → Act World Named
  set_params stmt flags args zero i n = pure n
  set_params stmt flags args (suc k) i n = do
    n' ← set_param stmt flags args i n
    set_params stmt flags args k (suc i) n'

  abbrev pub none_unused : Named → Act World Bitset
  none_unused ([], provided) = pure provided
  none_unused (u ∷ us, provided) = fail (sqlite result_range)

  -- setNamed
  pub set_named : Stmt → Flags → List (String × Arg Float) → Bitset → Act World Bitset
  set_named stmt flags args provided = if is_empty args then pure provided else (do
    n ←
        set_params stmt flags args (bind_param_count stmt) 0
          (if flags.forbid_extra then keys args else [], provided)
    none_unused n)

  -- if opts != nil { ... }
  pub set_options : Stmt → Flags → Option ExecOptions → Act World Bitset
  set_options stmt flags none = pure (new_bitset (bind_param_count stmt))
  set_options stmt flags (some o) =
      if ltb (bind_param_count stmt) (length o.args) then fail (sqlite result_range) else (do
        provided ← set_args stmt 0 o.args (new_bitset (bind_param_count stmt))
        set_named stmt flags o.named provided)

  -- The name of the parameter that the error names.
  abbrev pub param_label : Stmt → ℕ → String
  param_label stmt i =
      if str_eq (bind_param_name stmt i) ""
      then String.◌++◌ "?" (decimal i)
      else bind_param_name stmt i

  -- if flags&forbidMissing != 0 && !provided.hasAll(paramCount)
  pub checked_against : Stmt → Flags → Bitset → Act World (Unit {0})
  checked_against stmt flags provided =
      if flags.forbid_missing && not (has_all provided (bind_param_count stmt))
      then fail (
          message (
            String.◌++◌ "sqlitex: missing argument for "
              (param_label stmt (first_missing provided + 1))))
      else pure tt

  -- exec, before its loop
  pub bind_all : Stmt → Flags → Option ExecOptions → Act World (Unit {0})
  bind_all stmt flags opts = do
    provided ← set_options stmt flags opts
    checked_against stmt flags provided

  -- opts != nil && opts.ResultFunc != nil
  abbrev pub result_func_of : Option ExecOptions → Option (Stmt → World → Option Error × World)
  result_func_of none = none
  result_func_of (some o) = o.result_func

  abbrev pub on_row : Option (Stmt → World → Option Error × World) → Stmt → Act World (Unit {0})
  on_row none stmt = pure tt
  on_row (some f) stmt = checked (f stmt)

  abbrev pub after_step :
      Option (Stmt → World → Option Error × World)
      → Stmt
      → Act World (Unit {0})
      → Bool
      → Act World (Unit {0})
  after_step f stmt rest true = on_row f stmt >> rest
  after_step f stmt rest false = pure tt

  -- The loop of exec, on fuel.
  pub rows : ℕ → Option (Stmt → World → Option Error × World) → Stmt → Act World (Unit {0})
  rows zero f stmt w = (out_of_fuel, w)
  rows (suc fuel) f stmt w = (call (step stmt) >>= after_step f stmt (rows fuel f stmt)) w

  pub exec : ℕ → Stmt → Flags → Option ExecOptions → Act World (Unit {0})
  exec fuel stmt flags opts = do bind_all stmt flags opts; rows fuel (result_func_of opts) stmt

  -- err is the error behind exec, and then that of Reset.
  abbrev pub first_error : Attempt (Unit {0}) → Option Error → Attempt (Unit {0})
  first_error (value _) none = value tt
  first_error (value _) (some e) = failed e
  first_error (failed e) r = failed e
  first_error index_out_of_range r = index_out_of_range
  first_error out_of_fuel r = out_of_fuel

  -- resetErr := stmt.Reset()
  abbrev pub and_reset : Stmt → Act World (Unit {0}) → Act World (Unit {0})
  and_reset stmt m w =
      let (r, w1) = m w in let (reset_err, w2) = reset stmt w1 in (first_error r reset_err, w2)

  -- defer stmt.Finalize(), whose error counts where there is no other
  abbrev pub and_finalize : Stmt → Act World (Unit {0}) → Act World (Unit {0})
  and_finalize stmt m w =
      let (r, w1) = m w in let (ferr, w2) = finalize stmt w1 in (first_error r ferr, w2)

  abbrev pub strict : Flags
  strict = record { forbid_missing = true; forbid_extra = true }

  abbrev pub lax : Flags
  lax = record { forbid_missing = false; forbid_extra = false }

  -- Execute
  pub execute : ℕ → String → Option ExecOptions → Act World (Unit {0})
  execute fuel query opts = do
    stmt ← call (prepare query)
    and_reset stmt (exec fuel stmt strict opts)

  -- Exec
  pub exec_lax :
      ℕ
      → String
      → Option (Stmt → World → Option Error × World)
      → List (Arg Float)
      → Act World (Unit {0})
  exec_lax fuel query f args = do
    stmt ← call (prepare query)
    and_reset stmt (exec fuel stmt lax (some (record { args = args; named = []; result_func = f })))

  abbrev pub if_whole : ℕ → Act World (Unit {0}) → Act World (Unit {0})
  if_whole zero m = m
  if_whole (suc n) m = fail (message "sqlitex: execute: query has trailing bytes")

  -- ExecuteTransient
  pub execute_transient : ℕ → String → Option ExecOptions → Act World (Unit {0})
  execute_transient fuel query opts = do
    (stmt, trailing_bytes) ← call (prepare_transient query)
    and_finalize stmt (if_whole trailing_bytes (exec fuel stmt strict opts))

  -- ExecTransient
  pub exec_transient :
      ℕ
      → String
      → Option (Stmt → World → Option Error × World)
      → List (Arg Float)
      → Act World (Unit {0})
  exec_transient fuel query f args = do
    (stmt, trailing_bytes) ← call (prepare_transient query)
    and_finalize stmt (
        if_whole trailing_bytes
          (exec fuel stmt lax (some (record { args = args; named = []; result_func = f }))))

  -- Where only Reset fails, the functions on files wrap the error of exec, which is nil: the error
  -- that they return wraps nothing.
  abbrev pub first_error_fs : Attempt (Unit {0}) → Option Error → Attempt (Unit {0})
  first_error_fs (value _) none = value tt
  first_error_fs (value _) (some e) = failed (message "sqlitex: execute: %!w(<nil>)")
  first_error_fs (failed e) r = failed e
  first_error_fs index_out_of_range r = index_out_of_range
  first_error_fs out_of_fuel r = out_of_fuel

  abbrev pub and_reset_fs : Stmt → Act World (Unit {0}) → Act World (Unit {0})
  and_reset_fs stmt m w =
      let (r, w1) = m w in let (reset_err, w2) = reset stmt w1 in (first_error_fs r reset_err, w2)

  -- ExecuteFS; what readString returns is an argument.
  pub execute_fs : ℕ → Result String → Option ExecOptions → Act World (Unit {0})
  execute_fs fuel file opts = do
    query ← call (λ w. (file, w))
    stmt ← call (prepare (trim_space query))
    and_reset_fs stmt (exec fuel stmt strict opts)

  abbrev pub dropping_error : (World → Option Error × World) → World → World
  dropping_error f w = (f w).1

  -- ExecuteTransientFS: the error of the deferred Finalize is dropped.
  pub execute_transient_fs : ℕ → Result String → Option ExecOptions → Act World (Unit {0})
  execute_transient_fs fuel file opts = do
    query ← call (λ w. (file, w))
    (stmt, trailing_bytes) ← call (prepare_transient (trim_space query))
    λ w.
        let (r, w1) = and_reset_fs stmt (exec fuel stmt strict opts) w in
        (r, dropping_error (finalize stmt) w1)

  -- PrepareTransientFS
  pub prepare_transient_fs : Result String → Act World Stmt
  prepare_transient_fs file = do
    query ← call (λ w. (file, w))
    (stmt, trailing_bytes) ← call (prepare_transient (trim_space query))
    pure stmt
