-- ===== src/Sqlitex/Savepoint/Tests.antt =====
-- Runs over the session in memory, and the theorems at inputs of these runs.
use go_sqlite.Base.{◌≡◌, refl, none, some, true, [], ◌∷◌}
use go_sqlite.Errors.{sqlite, result_busy}
use go_sqlite.Sqlitex.Database.Memory.{session, Session}
use go_sqlite.Sqlitex.Savepoint.{
  user, returns, panics, end_savepoint, end_transaction, undo_savepoint, undo_transaction,
}

abbrev idle : Session
idle = record { value = 5; stack = []; signal = some 1; busy = true }

-- A transaction that began at 5 and has come to 8, while a reader keeps COMMIT from succeeding.
abbrev in_transaction : Session
in_transaction = record idle { value = 8; stack = (none, 5) ∷ [] }

-- In it, a savepoint made at 6.
abbrev in_savepoint : Session
in_savepoint = record idle { value = 8; stack = (some "a", 6) ∷ (none, 5) ∷ [] }

-- COMMIT fails, so the end of the transaction rolls back and reports the error of COMMIT.
busy_rolls_back :
    end_transaction session none none in_transaction
    ≡ record { exit = returns; errp = some (sqlite result_busy); conn = idle }
unfolding end_transaction undo_transaction
busy_rolls_back = refl

panic_undoes_savepoint : end_savepoint session "a" (some (user 3)) none in_savepoint ≡ record {
  exit = panics (user 3);
  errp = none;
  conn = record idle { value = 6; stack = (none, 5) ∷ [] };
}
unfolding end_savepoint undo_savepoint
panic_undoes_savepoint = refl
