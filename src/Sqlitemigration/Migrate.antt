-- ===== src/Sqlitemigration/Migrate.antt =====
-- sqlitemigration/sqlitemigration.go: Schema, migrateDB and the functions that it calls. An error
-- that is wrapped (%w) is the same error here. `onStart.call()` and the deferred Finalize calls
-- do not touch what is modelled. A version is an int32: its decrement and the increment at the end
-- of the loop's body cancel out, also where they wrap.
pub mod Round
pub mod Apply
pub mod Loop
pub mod Start
pub mod Alone
pub mod Whole
mod Tests
use Prim.Native.String
use Prim.Native.String.{String}
use go_sqlite.Base.{
  ◌⊎◌, inl, inr, ℕ, zero, suc, ◌+◌, ◌≡◌, ◌&&◌, not, Bool, true, false, Option, none, some, List, [],
  ◌∷◌, if◌then◌else◌, length, get_elem?, ◌==◌,
}
use go_sqlite.Base.Int.{ℤ, pos, negsuc, is_nat, succ, pred, is_int}
use go_sqlite.Errors.{Error, message, Result, ok, err}
use go_sqlite.Sqlitex.Database.{Database, Sql, begin, commit, rollback, immediate}
use go_sqlite.Sqlitex.Savepoint.{
  Panic, Exit, returns, panics, EndFn, Ended, run_end, immediate_transaction,
}
use go_sqlite.Run.{Run, ◌>>=◌, ◌>>◌, pure, fail, checked}
use go_sqlite.Sqlitemigration.Store.{
  Store, has_schema, application_id, user_version, foreign_keys, foreign_keys_off, foreign_keys_on,
  set_application_id, with_version, alone,
}

pub record MigrationOptions : Type 0 where
  pub disable_foreign_keys : Bool

pub record Schema : Type 0 where
  pub migrations : List String
  -- A nil pointer is `none`.
  pub migration_options : List (Option MigrationOptions)
  pub app_id : ℤ
  pub repeatable_migration : String

pub data Outcome : Type 0 where
  done : Outcome
  fails : Error → Outcome
  -- schema.Migrations[schemaVersion] at a negative version
  index_out_of_range : ℤ → Outcome
  -- The end of ensureAppID's transaction panics.
  panics_with : Panic → Outcome

-- s != ""
abbrev pub not_blank : String → Bool
not_blank String.[] = false
not_blank (String.◌∷◌ c s) = true

abbrev pub asked_to_disable : Option (Option MigrationOptions) → Bool
asked_to_disable (some (some o)) = o.disable_foreign_keys
asked_to_disable _ = false

-- The repeatable script goes with the last migration.
abbrev pub repeats : Schema → ℕ → Bool
repeats sch v = suc v == length sch.migrations && not_blank sch.repeatable_migration

abbrev pub error_of {ℓ} : {A : Type ℓ} → Result A → Option Error
error_of (ok a) = none
error_of (err e) = some e

-- defer end(&err): a value is returned if no error is left.
abbrev pub ending : Exit → Option Error → Result ℤ → Result ℤ ⊎ Panic
ending (panics p) errp r = inr p
ending returns (some e) r = inl (err e)
ending returns none r = inl r

module _ (D : Database) (S : Store D) where
  open D use {Conn, autocommit, set_interrupt}

  pub step_and_reset : Sql → Run Conn (Unit {0})
  step_and_reset s = do checked (S.step s); checked (S.reset s)

  pub rolled_back : Conn → Conn
  rolled_back c = if autocommit c then c else (D.execute rollback c).1

  -- if err != nil { rollback(conn); return err }
  abbrev pub undone_if_failed {ℓ} : {A : Type ℓ} → Result A × Conn → Result A × Conn
  undone_if_failed (ok a, c) = (ok a, c)
  undone_if_failed (err e, c) = (err e, rolled_back c)

  abbrev pub rolling_back : {A : Type 0} → Run Conn A → Run Conn A
  rolling_back m c = undone_if_failed (m c)

  abbrev pub when : Bool → Run Conn (Unit {0}) → Run Conn (Unit {0})
  when b m = if b then m else pure tt

  -- The scripts of one migration and the COMMIT.
  pub apply : Schema → ℕ → String → Run Conn (Unit {0})
  apply sch v migration = do
    rolling_back (checked (S.exec_script (with_version migration (suc v))))
    when (repeats sch v) (rolling_back (checked (S.exec_script (alone sch.repeatable_migration))))
    rolling_back (step_and_reset commit)

  -- Behind the test of the version that the transaction finds; the version at the end of the body.
  pub apply_at : Schema → Bool → ℕ → String → ℤ → Run Conn ℤ
  apply_at sch disable_fks v migration actual =
      if is_nat actual v
      then (do
        apply sch v migration
        when disable_fks (checked (S.pragma foreign_keys_on))
        pure (pos v))
      else (λ c. (ok (pred actual), rolled_back c))

  -- The body of migrateDB's loop.
  pub round : Schema → Bool → ℕ → String → Run Conn ℤ
  round sch fks v migration = do
    when (fks && asked_to_disable (get_elem? sch.migration_options v))
        (checked (S.pragma foreign_keys_off))
    step_and_reset (begin immediate)
    actual ← rolling_back (S.query user_version)
    apply_at sch (fks && asked_to_disable (get_elem? sch.migration_options v)) v migration actual

  abbrev pub next_round :
      (ℤ → Conn → Option (Outcome × Conn)) → Result ℤ × Conn → Option (Outcome × Conn)
  next_round rest (ok v, c) = rest (succ v) c
  next_round rest (err e, c) = some (fails e, c)

  -- No migration at the index: the loop ends.
  abbrev pub at_index :
      (ℤ → Conn → Option (Outcome × Conn))
      → (String → Run Conn ℤ)
      → Option String
      → Conn
      → Option (Outcome × Conn)
  at_index rest body none c = some (done, c)
  at_index rest body (some m) c = next_round rest (body m c)

  -- for ; int(schemaVersion) < len(schema.Migrations); schemaVersion++, on fuel
  pub loop : Schema → Bool → ℕ → ℤ → Conn → Option (Outcome × Conn)
  loop sch fks zero v c = none
  loop sch fks (suc fuel) (negsuc n) c = some (index_out_of_range (negsuc n), c)
  loop sch fks (suc fuel) (pos v) c =
      at_index (loop sch fks fuel) (round sch fks v) (get_elem? sch.migrations v) c

  -- ensureAppID between the begin of its transaction and its end.
  pub check_app_id : ℤ → Run Conn ℤ
  check_app_id want = do
    tables ← S.query has_schema
    id ← S.query application_id
    if not (is_int id want) && not (is_nat id 0 && is_nat tables 0)
        then fail (message "database application_id")
        else pure tt
    version ← S.query user_version
    checked (S.pragma (set_application_id want))
    pure version

  abbrev pub run_deferred : EndFn → Result ℤ × Conn → (Result ℤ ⊎ Panic) × Conn
  run_deferred f (r, c) =
      let x = run_end D f none (error_of r) c in (ending x.exit x.errp r, x.conn)

  abbrev pub when_begun : ℤ → (EndFn × Option Error) × Conn → (Result ℤ ⊎ Panic) × Conn
  when_begun want ((f, some e), c) = (inl (err e), c)
  when_begun want ((f, none), c) = run_deferred f (check_app_id want c)

  pub ensure_app_id : ℤ → Conn → (Result ℤ ⊎ Panic) × Conn
  ensure_app_id want c = when_begun want (immediate_transaction D c)

  -- What migrateDB finds out between ensureAppID and its loop: whether foreign keys are enabled.
  pub prepare_loop : Run Conn Bool
  prepare_loop = do
    enabled ← S.query foreign_keys
    checked (S.prepare (begin immediate))
    checked (S.prepare commit)
    pure (not (is_nat enabled 0))

  abbrev pub run_loop : Schema → ℕ → ℤ → Result Bool × Conn → Option (Outcome × Conn)
  run_loop sch fuel v (err e, c) = some (fails e, c)
  run_loop sch fuel v (ok fks, c) = loop sch fks fuel v c

  abbrev pub when_checked : Schema → ℕ → (Result ℤ ⊎ Panic) × Conn → Option (Outcome × Conn)
  when_checked sch fuel (inr p, c) = some (panics_with p, c)
  when_checked sch fuel (inl (err e), c) = some (fails e, c)
  when_checked sch fuel (inl (ok v), c) = run_loop sch fuel v (prepare_loop c)

  -- defer conn.SetInterrupt(old)
  abbrev pub interrupt_back : Option ℕ → Option (Outcome × Conn) → Option (Outcome × Conn)
  interrupt_back old none = none
  interrupt_back old (some (o, c)) = some (o, (set_interrupt old c).1)

  -- migrateDB; the channel is ctx.Done().
  pub migrate_db : Schema → Option ℕ → ℕ → Conn → Option (Outcome × Conn)
  migrate_db sch channel fuel c =
      let (old, c1) = set_interrupt channel c in
      interrupt_back old (when_checked sch fuel (ensure_app_id sch.app_id c1))
