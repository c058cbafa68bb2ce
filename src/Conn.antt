-- ===== src/Conn.antt =====
-- sqlite.go: a connection with its cache of prepared statements, which module Data has, and what
-- Prepare, Step, Reset and the like do to them. The calls of the SQLite library are parameters
-- (Library). A statement is its place among the ones that the connection has made, as a pointer is; it
-- is not used once it is finalized.
pub mod Data
unfoldable pub use Data.*
pub mod Statements
pub mod Resetting
pub mod Caching
pub mod Stepping
pub mod Tests
use go_sqlite.Base.{
  ℕ, zero, suc, ◌+◌, Bool, true, false, Option, none, some, List, [], ◌∷◌, ◌++◌, length, get_elem?,
  set, ◌==◌, if◌then◌else◌,
}
use text.Mathlib.Text.{◌==◌ as str_eq}
use Prim.Native.String.{String}
use go_sqlite.Errors.{
  ResultCode, result_ok, result_row, result_done, result_interrupt, result_locked_shared_cache,
  Error, sqlite, message, to_error, err_code, Result, ok, err,
}

module _ (L : Library) where
  open L use {
    World, is_done, compile, finalize_call, reset_call, clear_call, step_call, wait_for_unlock,
    close_call,
  }

  abbrev pub Method : Type 0 → Type 0
  Method A = A × Conn × World

  -- (*Conn).interrupted
  abbrev pub conn_interrupted : Conn → World → Option Error
  conn_interrupted c w = elim (c.done_ch) [
    | none ↦ none
    | some ch ↦ if is_done ch w then some interrupt else none
  ]

  -- (*Stmt).interrupted
  abbrev pub interrupted : Stmt → Conn → World → Option Error
  interrupted s c w = if s.prep_interrupt then some interrupt else conn_interrupted c w

  abbrev pub fresh_stmt : String → ℕ → List String → Bool → Stmt
  fresh_stmt q h names stopped = record {
    is_open = true;
    handle = h;
    query = q;
    bind_names = names;
    bind_err = none;
    prep_interrupt = stopped;
    last_has_row = false;
  }

  abbrev pub compiled_by : String → Conn → Compiled × World → Method (Result (ℕ × ℕ))
  compiled_by q c (not_compiled e, w) = (err e, c, w)
  compiled_by q c (compiled h names trailing, w) =
      (ok (length c.objects, trailing), add_object (fresh_stmt q h names false) c, w)

  abbrev pub unless_stopped :
      Option Error → Method (Result (ℕ × ℕ)) → Conn → World → Method (Result (ℕ × ℕ))
  unless_stopped (some e) r c w = (err e, c, w)
  unless_stopped none r c w = r

  -- (*Conn).prepare and PrepareTransient: the statement, and the number of bytes behind it
  unfoldable pub prepare_transient : String → Conn → World → Method (Result (ℕ × ℕ))
  prepare_transient q c w =
      unless_stopped (conn_interrupted c w) (compiled_by q c (compile q w)) c w

  abbrev pub uncached : ℕ → Option ℕ → Conn → String → Conn
  uncached i none c q = c
  uncached i (some j) c q = if j == i then record c { stmts = erase q c.stmts } else c

  -- (*Stmt).Finalize
  unfoldable pub finalize : ℕ → Stmt → Conn → World → Method (Option Error)
  finalize i s c w =
      let r = finalize_call s.handle w in
      (
        to_error r.0,
        update i (record s { is_open = false }) (uncached i (find s.query c.stmts) c s.query),
        r.1,
      )

  -- The loop of (*Stmt).Reset, on fuel
  abbrev pub unlocked :
      (World → Option (Option Error) × World) → ResultCode × World → Option (Option Error) × World
  unlocked rest (code, w) =
      if is_ok code then rest w else (some (some (wrapped (to_error code))), w)

  abbrev pub reset_again :
      (World → Option (Option Error) × World) → ResultCode × World → Option (Option Error) × World
  reset_again rest (code, w) =
      if is_shared_lock code then unlocked rest (wait_for_unlock w) else (some (to_error code), w)

  unfoldable pub reset_loop : ℕ → ℕ → World → Option (Option Error) × World
  reset_loop zero h w = (none, w)
  reset_loop (suc fuel) h w = reset_again (reset_loop fuel h) (reset_call h w)

  -- (*Stmt).Reset; `none` is no end of the code's.
  unfoldable pub reset : ℕ → ℕ → Stmt → Conn → World → Method (Option (Option Error))
  reset fuel i s c w =
      let r = reset_loop fuel s.handle w in
      (r.0, update i (record s { last_has_row = false }) c, r.1)

  -- (*Stmt).ClearBindings
  unfoldable pub clear_bindings : Stmt → Conn → World → Option Error × World
  clear_bindings s c w = elim (interrupted s c w) [
    | some e ↦ (some e, w)
    | none ↦ let r = clear_call s.handle w in (to_error r.0, r.1)
  ]

  -- if stmt := c.stmts[query]; stmt != nil { ... }
  abbrev pub cleared : ℕ → Conn → Option Error × World → Method (Option (Result ℕ))
  cleared i c (some e, w) = (some (err e), c, w)
  cleared i c (none, w) = (some (ok i), c, w)

  abbrev pub was_reset : ℕ → Stmt → Method (Option (Option Error)) → Method (Option (Result ℕ))
  was_reset i s (none, c, w) = (none, c, w)
  was_reset i s (some (some e), c, w) = (some (err e), c, w)
  was_reset i s (some none, c, w) = cleared i c (clear_bindings s c w)

  abbrev pub cached : ℕ → ℕ → Option Stmt → Conn → World → Method (Option (Result ℕ))
  cached fuel i none c w = (none, c, w)
  cached fuel i (some s) c w = was_reset i s (reset fuel i s c w)

  abbrev pub kept : ℕ → Option Stmt → String → Conn → World → ℕ → Method (Option (Result ℕ))
  kept i none q c w trailing = (none, c, w)
  kept i (some s) q c w trailing =
      if trailing == 0 then (some (ok i), record c { stmts = (q, i) ∷ c.stmts }, w) else (
        some (err (message "statement has trailing bytes")),
        (finalize i s c w).1,
        (finalize i s c w).2,
      )

  abbrev pub newly : String → Method (Result (ℕ × ℕ)) → Method (Option (Result ℕ))
  newly q (err e, c, w) = (some (err e), c, w)
  newly q (ok (i, trailing), c, w) = kept i (get_elem? c.objects i) q c w trailing

  abbrev pub looked_up : ℕ → String → Option ℕ → Conn → World → Method (Option (Result ℕ))
  looked_up fuel q (some i) c w = cached fuel i (get_elem? c.objects i) c w
  looked_up fuel q none c w = newly q (prepare_transient q c w)

  -- (*Conn).Prepare
  unfoldable pub prepare : ℕ → String → Conn → World → Method (Option (Result ℕ))
  prepare fuel q c w = looked_up fuel q (find q c.stmts) c w

  -- What Prep ends with.
  pub data PrepEnd : Type 0 where
    prepped : ℕ → PrepEnd
    panics : Error → PrepEnd

  abbrev pub prep_failed : String → Error → Conn → PrepEnd × Conn
  prep_failed q e c =
      if is_interrupt (err_code (some e))
      then (prepped (length c.objects), add_object (fresh_stmt q 0 [] true) c)
      else (panics e, c)

  -- (*Conn).Prep
  abbrev pub prep_end : String → Method (Option (Result ℕ)) → Method (Option PrepEnd)
  prep_end q (none, c, w) = (none, c, w)
  prep_end q (some (ok i), c, w) = (some (prepped i), c, w)
  prep_end q (some (err e), c, w) = let r = prep_failed q e c in (some r.0, r.1, w)

  unfoldable pub prep : ℕ → String → Conn → World → Method (Option PrepEnd)
  prep fuel q c w = prep_end q (prepare fuel q c w)

  -- The loop of (*Stmt).step, on fuel: whether a row was returned, and the error
  abbrev pub awaited_by :
      (World → Option (Bool × Option Error) × World)
      → ℕ
      → World
      → Option Error
      → Option (Bool × Option Error) × World
  awaited_by rest h w (some e) = (some (false, some e), w)
  awaited_by rest h w none = rest (reset_call h w).1

  abbrev pub awaited :
      (World → Option (Bool × Option Error) × World)
      → ℕ
      → ResultCode × World
      → Option (Bool × Option Error) × World
  awaited rest h (code, w) = awaited_by rest h w (to_error code)

  abbrev pub stepped :
      (World → Option (Bool × Option Error) × World)
      → ℕ
      → ResultCode × World
      → Option (Bool × Option Error) × World
  stepped rest h (code, w) =
      if is_shared_lock code
      then awaited rest h (wait_for_unlock w)
      else (some (is_row code, to_error code), w)

  abbrev pub step_unless :
      Option Error
      → Option (Bool × Option Error) × World
      → World
      → Option (Bool × Option Error) × World
  step_unless (some e) r w = (some (false, some e), w)
  step_unless none r w = r

  unfoldable pub step_loop : ℕ → Stmt → Conn → World → Option (Bool × Option Error) × World
  step_loop zero s c w = (none, w)
  step_loop (suc fuel) s c w =
      step_unless (interrupted s c w) (stepped (step_loop fuel s c) s.handle (step_call s.handle w))
        w

  abbrev pub step_end :
      ℕ → Stmt → Conn → Option (Bool × Option Error) × World → Method (Option (Bool × Option Error))
  step_end i s c (none, w) = (none, c, w)
  step_end i s c (some (row, none), w) =
      (some (row, none), update i (record s { last_has_row = row }) c, w)
  step_end i s c (some (row, some e), w) =
      (some (row, some e), update i (record s { last_has_row = row }) c, (reset_call s.handle w).1)

  abbrev pub refused_by :
      Error → Method (Option (Option Error)) → Method (Option (Bool × Option Error))
  refused_by e (none, c, w) = (none, c, w)
  refused_by e (some _, c, w) = (some (false, some e), c, w)

  abbrev pub step_bound :
      ℕ → ℕ → Option Error → Stmt → Conn → World → Method (Option (Bool × Option Error))
  step_bound fuel i (some e) s c w = refused_by e (reset fuel i (record s { bind_err = none }) c w)
  step_bound fuel i none s c w = step_end i s c (step_loop fuel s c w)

  -- (*Stmt).Step
  unfoldable pub step : ℕ → ℕ → Stmt → Conn → World → Method (Option (Bool × Option Error))
  step fuel i s c w = step_bound fuel i s.bind_err s c w

  -- for _, stmt := range c.stmts, where a row was returned
  abbrev pub reset_if : ℕ → ℕ → Option Stmt → Conn → World → Option (Option Error) × Conn × World
  reset_if fuel i none c w = (some none, c, w)
  reset_if fuel i (some s) c w = if s.last_has_row then reset fuel i s c w else (some none, c, w)

  abbrev pub on_running :
      (Conn → World → Method Bool) → Method (Option (Option Error)) → Method Bool
  on_running rest (none, c, w) = (false, c, w)
  on_running rest (some _, c, w) = rest c w

  unfoldable pub reset_all : ℕ → List (String × ℕ) → Conn → World → Method Bool
  reset_all fuel [] c w = (true, c, w)
  reset_all fuel ((k, i) ∷ m) c w =
      on_running (reset_all fuel m) (reset_if fuel i (get_elem? c.objects i) c w)

  -- (*Conn).SetInterrupt: the old channel, or a panic; `false` where it has run out of fuel
  unfoldable pub set_interrupt : ℕ → Option ℕ → Conn → World → Method (Option (Bool × Option ℕ))
  set_interrupt fuel ch c w =
      if c.is_closed
      then (none, c, w)
      else (let r = reset_all fuel c.stmts (record c { done_ch = ch }) w in
          (some (r.0, c.done_ch), r.1, r.2))

  abbrev pub finalize_at : ℕ → Option Stmt → Conn → World → Conn × World
  finalize_at i none c w = (c, w)
  finalize_at i (some s) c w = ((finalize i s c w).1, (finalize i s c w).2)

  unfoldable pub finalize_all : List (String × ℕ) → Conn → World → Conn × World
  finalize_all [] c w = (c, w)
  finalize_all ((k, i) ∷ m) c w =
      let r = finalize_at i (get_elem? c.objects i) c w in finalize_all m r.0 r.1

  -- (*Conn).Close
  unfoldable pub close : Conn → World → Method (Option Error)
  close c w =
      if c.is_closed
      then (some (message "sqlite: close: already closed"), c, w)
      else (let r = finalize_all c.stmts (record c { is_closed = true }) w in
          let e = close_call r.1 in (to_error e.0, r.0, e.1))
