-- ===== src/Sqlitemigration/Migrate/Tests.antt =====
-- Runs over the store in memory, and the theorems at inputs of these runs.

use go_sqlite.Base.{ℕ, ◌≡◌, ◌≤◌, drop, refl, none, some, true, false, [], ◌∷◌, arith}
use go_sqlite.Base.Int.{pos}
use go_sqlite.Errors.{sqlite, result_error}
use go_sqlite.Sqlitex.Database.Memory.{session, session_laws, Session}
use go_sqlite.Run.{Post}
use go_sqlite.Sqlitemigration.Store.Memory.{store, store_laws}
use go_sqlite.Sqlitemigration.Migrate.{
  Schema, done, fails, loop, round, migrate_db, ensure_app_id, step_and_reset, rolled_back, apply,
  apply_at,
}
use go_sqlite.Sqlitemigration.Migrate.Round.{Advanced, Stopped, round-atomic}
use go_sqlite.Sqlitemigration.Migrate.Start.{Identified, ensure_app_id-Identified}
use go_sqlite.Sqlitemigration.Migrate.Loop.{History, AtLeast, loop-History}
use go_sqlite.Sqlitemigration.Migrate.Alone.{upgraded, loop-upgraded}
use go_sqlite.Sqlitemigration.Migrate.Whole.{
  Explained, MigrateEnd, InterruptIs, migrate_db-Explained, migrate_db-ends, migrate_db-InterruptIs,
}

-- Version 1, with no transaction open.
abbrev at_one : Session
at_one = record { value = 1; stack = []; signal = some 4; busy = false }

abbrev three_migrations : Schema
three_migrations = record {
  migrations = "a" ∷ "b" ∷ "c" ∷ [];
  migration_options = none ∷ some (record { disable_foreign_keys = true }) ∷ [];
  app_id = pos 7;
  repeatable_migration = "r";
}

-- Its third migration fails.
abbrev bad_third : Schema
bad_third = record three_migrations { migrations = "a" ∷ "b" ∷ "bad" ∷ [] }

never_lowered :
    (d e n : ℕ) → e ≡ d → pos d ≡ pos n → AtLeast session store three_migrations n (pos e)
never_lowered d e n o h = (e, refl, same d n o (cc h))
  where
    same : (d n : ℕ) → e ≡ d → d ≡ n → n ≤ e
    same d n o h = omega arith

migrates_to_three :
    loop session store three_migrations true 3 (pos 1) at_one
    ≡ some (done, record at_one { value = 3 })
unfolding loop round step_and_reset rolled_back apply apply_at
migrates_to_three = refl

keeps_second_migration :
    loop session store bad_third true 3 (pos 1) at_one
    ≡ some (fails (sqlite result_error), record at_one { value = 2 })
unfolding loop round step_and_reset rolled_back apply apply_at
keeps_second_migration = refl

takes_over_version :
    loop session store three_migrations true 4 (pos 0) at_one
    ≡ some (done, record at_one { value = 3 })
unfolding loop round step_and_reset rolled_back apply apply_at
takes_over_version = refl

round-atomic_example :
    Post
      (Advanced session store three_migrations 1 "b" at_one)
      (λ _. Stopped session store three_migrations 1 "b" at_one)
      (round session store three_migrations true 1 "b" at_one)
round-atomic_example =
    round-atomic session session_laws store store_laws three_migrations true 1 "b" at_one

loop-History_example : History session store bad_third 1 2
loop-History_example =
    loop-History session session_laws store store_laws bad_third true 3 (pos 1) at_one
      (fails (sqlite result_error)) (record at_one { value = 2 }) keeps_second_migration

loop-upgraded_example :
    3 ≡ upgraded session store three_migrations 1 (drop 1 three_migrations.migrations) 1
loop-upgraded_example =
    loop-upgraded session session_laws store store_laws three_migrations (λ d e o. o) (λ d. refl)
      true 3 1 at_one (record at_one { value = 3 }) refl migrates_to_three

ensure_app_id-Identified_example :
    Identified session store (pos 7) at_one (ensure_app_id session store (pos 7) at_one)
ensure_app_id-Identified_example =
    ensure_app_id-Identified session session_laws store store_laws (pos 7) at_one

migrate_db-Explained_example :
    Explained session store bad_third 1 (migrate_db session store bad_third (some 9) 4 at_one)
migrate_db-Explained_example =
    migrate_db-Explained session session_laws store store_laws bad_third (some 9) 4 at_one

migrate_db-InterruptIs_example :
    InterruptIs session session_laws store store_laws three_migrations
      (some 4)
      (migrate_db session store three_migrations (some 9) 4 at_one)
migrate_db-InterruptIs_example =
    migrate_db-InterruptIs session session_laws store store_laws three_migrations (some 9) 4 at_one

migrate_db-ends_example :
    MigrateEnd session store three_migrations 1
      (migrate_db session store three_migrations (some 9) 4 at_one)
migrate_db-ends_example =
    migrate_db-ends session session_laws store store_laws three_migrations never_lowered (λ d. refl)
      (some 9) 4 at_one (omega arith) (λ d o. (d, refl, omega arith))
