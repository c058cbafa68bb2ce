-- ===== src/Conn/Tests.antt =====
-- A library whose world is the number of locks that are to be waited for, and the theorems on it.
use go_sqlite.Base.{◌≡◌, refl, ℕ, zero, suc, ◌-◌, ◌<◌, ◌≤◌, true, false, none, some, [], ◌∷◌, arith}
use go_sqlite.Errors.{ResultCode, result_ok, result_row, result_locked_shared_cache, message}
use go_sqlite.Conn.{Stmt, Conn, Library, compiled, is_shared_lock, prepare, set_interrupt}
use go_sqlite.Conn.Statements.{Inv}
use go_sqlite.Conn.Resetting.{Settles, InterruptSet, set_interrupt-InterruptSet}
use go_sqlite.Conn.Caching.{Prepared, prepare-Prepared, enter, enter-Inv}
use go_sqlite.Conn.Stepping.{StepSettles}

abbrev code_of : ResultCode → ℕ → ResultCode × ℕ
code_of c zero = (c, 0)
code_of c (suc n) = (result_locked_shared_cache, suc n)

abbrev locks : Library
locks = record {
  World = ℕ;
  is_done = λ ch w. false;
  compile = λ q w. (compiled 7 ("$x" ∷ []) 0, w);
  finalize_call = λ h w. (result_ok, w);
  reset_call = λ h w. code_of result_ok w;
  clear_call = λ h w. (result_ok, w);
  step_call = λ h w. code_of result_row w;
  wait_for_unlock = λ w. (result_ok, w - 1);
  close_call = λ w. (result_ok, w);
}

locks-one_less :
    (w : ℕ) → is_shared_lock (code_of result_ok w).0 ≡ true → (code_of result_ok w).1 - 1 < w
locks-one_less zero e = cc (e)
locks-one_less (suc w) e = omega arith

locks-no_more : (c : ResultCode) (w : ℕ) → (code_of c w).1 ≤ w
locks-no_more c zero = omega arith
locks-no_more c (suc w) = omega arith

abbrev locks_settle : Settles locks
locks_settle = record {
  patience = λ w. w;
  one_less = λ h w e. locks-one_less w e;
  no_more = λ h w. locks-no_more result_ok w;
}

locks-one_less_step :
    (w : ℕ)
    → is_shared_lock (code_of result_row w).0 ≡ true
    → (code_of result_ok ((code_of result_row w).1 - 1)).1 < w
locks-one_less_step zero e = cc (e)
locks-one_less_step (suc w) e = omega (arith, locks-no_more result_ok (suc w - 1))

abbrev locks_settle_step : StepSettles locks (λ w. w)
locks_settle_step = record { one_less_step = λ h w e. locks-one_less_step w e }

abbrev running_stmt : Stmt
running_stmt = record {
  is_open = true;
  handle = 7;
  query = "SELECT $x";
  bind_names = "$x" ∷ [];
  bind_err = some (message "unknown parameter");
  prep_interrupt = false;
  last_has_row = true;
}

abbrev one_cached : Conn
one_cached = record {
  is_closed = false;
  stmts = ("SELECT $x", 0) ∷ [];
  objects = running_stmt ∷ [];
  done_ch = some 3;
}

abbrev none_cached : Conn
none_cached = record { is_closed = false; stmts = []; objects = running_stmt ∷ []; done_ch = none }

none_cached-Inv : Inv none_cached
none_cached-Inv q i f = cc (f)

abbrev with_cached : Conn
with_cached = enter locks "SELECT $x" 0 none_cached

with_cached-Inv : Inv with_cached
with_cached-Inv =
    enter-Inv locks "SELECT $x" 0 running_stmt none_cached
      (record { here = refl; of_query = refl; still_open = refl; compiled = refl }) none_cached-Inv

-- The statement of the cache is given again.
prepare-Prepared_example :
    Prepared locks "SELECT $x" with_cached (prepare locks 3 "SELECT $x" with_cached 2)
prepare-Prepared_example =
    prepare-Prepared locks locks_settle 3 "SELECT $x" with_cached 2 with_cached-Inv (omega arith)

set_interrupt-InterruptSet_example :
    InterruptSet locks locks_settle
      (some 4)
      one_cached
      (set_interrupt locks 3 (some 4) one_cached 2)
set_interrupt-InterruptSet_example =
    set_interrupt-InterruptSet locks locks_settle 3 (some 4) one_cached 2 refl (omega arith)
