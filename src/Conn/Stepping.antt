-- ===== src/Conn/Stepping.antt =====
-- What Step returns, and what it keeps in the statement.
use go_sqlite.Base.{◌≡◌, ◌≢◌, ℕ, ◌<◌, Bool, true, false, Option, none, some}
use go_sqlite.Errors.{result_row, result_locked_shared_cache, Error, to_error}
use go_sqlite.Conn.{Stmt, Conn, Library, Method, is_shared_lock, interrupted, reset, update}
use go_sqlite.Conn.Resetting.{Settles}

-- A step that finds a lock is tried again behind the wait so often only.
pub record StepSettles (L : Library) (patience : L.World → ℕ) : Type 0 where
  pub one_less_step :
      (h : ℕ) (w : L.World)
      → is_shared_lock (L.step_call h w).0 ≡ true
      → patience (L.reset_call h (L.wait_for_unlock (L.step_call h w).1).1).1 < patience w

module _ (L : Library) (settles : Settles L) (steps : StepSettles L settles.patience) where
  open L use {World, reset_call, step_call, wait_for_unlock}

  module _ (s : Stmt) (c : Conn) where
    -- From a world to the row and the error that the calls of the library give, and the world behind them:
    -- an interrupt; a lock of the shared cache that cannot be waited for; such a lock that is waited for,
    -- and a step tried again; or any other code, with a row exactly where it is SQLITE_ROW.
    pub data StepsTo : World → Bool → Option Error → World → Type 0 where
      stopped : {w : World} {e : Error} → interrupted L s c w ≡ some e → StepsTo w false (some e) w
      not_unlocked :
          {w : World} {e : Error}
          → interrupted L s c w ≡ none
          → (step_call s.handle w).0 ≡ result_locked_shared_cache
          → to_error (wait_for_unlock (step_call s.handle w).1).0 ≡ some e
          → StepsTo w false (some e) (wait_for_unlock (step_call s.handle w).1).1
      again :
          {w u : World} {row : Bool} {e : Option Error}
          → interrupted L s c w ≡ none
          → (step_call s.handle w).0 ≡ result_locked_shared_cache
          → to_error (wait_for_unlock (step_call s.handle w).1).0 ≡ none
          → StepsTo (reset_call s.handle (wait_for_unlock (step_call s.handle w).1).1).1 row e u
          → StepsTo w row e u
      answered :
          {w : World} {row : Bool} {e : Option Error}
          → interrupted L s c w ≡ none
          → (step_call s.handle w).0 ≢ result_locked_shared_cache
          → (row ≡ true → (step_call s.handle w).0 ≡ result_row)
          → ((step_call s.handle w).0 ≡ result_row → row ≡ true)
          → e ≡ to_error (step_call s.handle w).0
          → StepsTo w row e (step_call s.handle w).1

    -- The loop returns, with what the calls give.
    record LoopEnds (w : World) (r : Option (Bool × Option Error) × World) : Type 0 where
      row : Bool
      error : Option Error
      ended : r.0 ≡ some (row, error)
      steps_to : StepsTo w row error r.1

  -- What Step of a statement ends with: the error of a failed binding, which the statement then has no more; or
  -- the row and the error that the calls give, where the statement keeps whether there is a row, and is reset
  -- behind an error.
  pub data Stepped (i : ℕ) (s : Stmt) (c : Conn) (w : World)
      : Method L (Option (Bool × Option Error)) → Type 0 where
    bound_wrong :
        {e : Error} {c' : Conn} {w' : World} (fuel : ℕ)
        → s.bind_err ≡ some e
        → c' ≡ update i (record s { bind_err = none; last_has_row = false }) c
        → w' ≡ (reset L fuel i (record s { bind_err = none }) c w).2
        → Stepped i s c w (some (false, some e), c', w')
    went :
        {row : Bool} {c' : Conn} {w' : World}
        → s.bind_err ≡ none
        → StepsTo s c w row none w'
        → c' ≡ update i (record s { last_has_row = row }) c
        → Stepped i s c w (some (row, none), c', w')
    failed :
        {e : Error} {c' : Conn} {w' u : World}
        → s.bind_err ≡ none
        → StepsTo s c w false (some e) u
        → c' ≡ update i (record s { last_has_row = false }) c
        → w' ≡ (reset_call s.handle u).1
        → Stepped i s c w (some (false, some e), c', w')
