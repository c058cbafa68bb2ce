-- ===== src/Sqlitemigration/Pool.antt =====
-- sqlitemigration/sqlitemigration.go: the pool that is opened behind the migration, and closed. The pool of
-- sqlitex, and the migration on a connection of it, are the calls of the interface Pools.
pub mod Ends
pub mod Opening
pub mod Tests
use go_sqlite.Base.{ℕ, zero, suc, Bool, true, false, Option, none, some, if◌then◌else◌}
use go_sqlite.Errors.{Error, message, Result, ok, err}
use go_sqlite.Sqlitemigration.Migrate.{Outcome, done, fails, index_out_of_range, panics_with}

pub record Pools : Type 1 where
  pub World : Type 0
  pub new_pool : World → Result ℕ × World
  pub take : ℕ → World → Result ℕ × World
  pub put : ℕ → ℕ → World → World
  pub close_pool : ℕ → World → Option Error × World
  -- migrateDB on a connection, which may panic
  pub migrate : ℕ → World → Outcome × World
  -- Whether a retry is asked for, or the context is done before.
  pub wait_retry : World → Bool × World
  pub is_done : Error → Bool
  pub on_error : Error → World → World
  pub on_ready : World → World

-- What open ends with; `out_of_fuel` is no end of the code's.
pub data OpenResult : Type 0 where
  opened : ℕ → OpenResult
  failed : Error → OpenResult
  -- A panic, which ends the process.
  crashed : Outcome → OpenResult
  out_of_fuel : OpenResult

pub record Pool : Type 0 where
  pub pool : Option ℕ
  pub error : Option Error
  pub closed : Bool

abbrev pub closed_before : Error
closed_before = message "closed before successful migration"

abbrev pub already_closed : Error
already_closed = message "close sqlite pool: already closed"

module _ (P : Pools) where
  open P use {
    World, new_pool, take, put, close_pool, migrate, wait_retry, is_done, on_error, on_ready,
  }

  -- if closeErr := pool.Close(); closeErr != nil { ... }
  abbrev pub reported : Option Error × World → World
  reported (none, w) = w
  reported (some e, w) = on_error e w

  abbrev pub migrated : ℕ → ℕ → Outcome × World → OpenResult × World
  migrated p c (fails e, w) = (failed e, reported (close_pool p (put p c w)))
  migrated p c (done, w) = (opened p, on_ready (put p c w))
  migrated p c (index_out_of_range z, w) = (crashed (index_out_of_range z), w)
  migrated p c (panics_with x, w) = (crashed (panics_with x), w)

  abbrev pub took : ℕ → Result ℕ × World → OpenResult × World
  took p (err e, w) =
      if is_done e
      then (failed closed_before, (close_pool p w).1)
      else (failed e, reported (close_pool p w))
  took p (ok c, w) = migrated p c (migrate c w)

  abbrev pub attempt : (World → OpenResult × World) → Result ℕ × World → OpenResult × World
  attempt rest (err e, w) = rest (on_error e w)
  attempt rest (ok p, w) = took p (take p w)

  abbrev pub asked : (World → OpenResult × World) → Bool × World → OpenResult × World
  asked again (false, w) = (failed closed_before, w)
  asked again (true, w) = again w

  -- The loop of (*Pool).open, on fuel, behind a first attempt
  unfoldable pub open_again : ℕ → World → OpenResult × World
  open_again zero w = (out_of_fuel, w)
  open_again (suc fuel) w = asked (λ w'. attempt (open_again fuel) (new_pool w')) (wait_retry w)

  -- (*Pool).open
  unfoldable pub open_pool : ℕ → World → OpenResult × World
  open_pool fuel w = attempt (open_again fuel) (new_pool w)

  abbrev pub started : OpenResult × World → Option Pool × World
  started (opened p, w) = (some (record { pool = some p; error = none; closed = false }), w)
  started (failed e, w) =
      (some (record { pool = none; error = some e; closed = false }), on_error e w)
  started (crashed o, w) = (none, w)
  started (out_of_fuel, w) = (none, w)

  -- NewPool, with the goroutine that it starts run to its end
  unfoldable pub start : ℕ → World → Option Pool × World
  start fuel w = started (open_pool fuel w)

  abbrev pub close_opened : Option ℕ → World → Option Error × World
  close_opened none w = (none, w)
  close_opened (some p) w = close_pool p w

  -- (*Pool).Close, once the pool is ready
  unfoldable pub close : Pool → World → Option Error × Pool × World
  close p w =
      if p.closed
      then (some already_closed, p, w)
      else ((close_opened p.pool w).0, record p { closed = true }, (close_opened p.pool w).1)

  -- (*Pool).Put; `none` where it panics
  unfoldable pub put_back : Option Pool → ℕ → World → Option World
  put_back none c w = none
  put_back (some p) c w = elim (p.error) [
    | some e ↦ none
    | none ↦ elim (p.pool) [ some i ↦ some (put i c w) | none ↦ none ]
  ]

-- (*Pool).CheckHealth: of a pool that is not ready there is only whether it is closed.
unfoldable pub check_health : Bool → Option Pool → Option Error
check_health true p = some (message "sqlite pool health: closed")
check_health false none = some (message "sqlite pool health: not ready")
check_health false (some p) = p.error
