-- ===== src/Sqlitemigration/Migrate/Whole.antt =====
-- migrateDB from its call to its return.
use go_sqlite.Base.{
  ◌≡◌, refl, sym, ap, ap₂, ◌∙◌, subst, ◌⊎◌, inl, inr, ℕ, zero, suc, get_elem?, ◌<◌, Bool, Option,
  none, some, length, arith,
}
use Prim.Native.String.{String}
use go_sqlite.Base.Int.{ℤ, pos, negsuc, succ}
use go_sqlite.Errors.{Result, ok, err}
use go_sqlite.Sqlitex.Database.{Database, DatabaseLaws, begin, commit, immediate, base}
use go_sqlite.Sqlitex.Savepoint.{Panic}
use go_sqlite.Run.{
  Run, Post, returns, fails, Post-bind, checked, checked-Post, called-Post, pure, ◌>>◌,
}
use go_sqlite.Sqlitemigration.Store.{Store, StoreLaws, alone, committed, foreign_keys}
use go_sqlite.Sqlitemigration.Migrate.{
  Schema, Outcome, done, fails as fails_with, index_out_of_range, panics_with, loop, round,
  at_index, next_round, ensure_app_id, prepare_loop, run_loop, when_checked, interrupt_back,
  migrate_db,
}
use go_sqlite.Sqlitemigration.Migrate.Apply.{committed-Unchanged, committed-Refused}
use go_sqlite.Sqlitemigration.Migrate.Loop.{
  History, unchanged, others, identified as identified_history, AtLeast, LoopEnd, loop-History-from,
  loop-ends,
}
use go_sqlite.Sqlitemigration.Migrate.Start.{
  RollbackFailed, Identified, identified, refused, panicked, ensure_app_id-Identified,
}

module _ (D : Database) (S : Store D) (sch : Schema) where
  open D use {Conn, Db, db, frames}

  -- The contents have a history, or there is a panic and ROLLBACK failed.
  abbrev pub HistoryUnlessPanic : Db → Outcome → Db → Type 0
  HistoryUnlessPanic d (panics_with p) e = RollbackFailed D S d p
  HistoryUnlessPanic d _ e = History D S sch d e

  abbrev pub Explained : Db → Option (Outcome × Conn) → Type 0
  Explained d none = Unit {0}
  Explained d (some (o, c)) = HistoryUnlessPanic d o (committed D c)

  -- How migrateDB ends: with all migrations in the contents, with an error, or with the panic of a
  -- ROLLBACK that failed.
  abbrev pub EndsWith : Db → Outcome → Db → Type 0
  EndsWith d done e = AtLeast D S sch (length sch.migrations) (S.version e)
  EndsWith d (fails_with x) e = Unit {0}
  EndsWith d (index_out_of_range z) e = ⊥
  EndsWith d (panics_with p) e = RollbackFailed D S d p

  abbrev pub MigrateEnd : Db → Option (Outcome × Conn) → Type 0
  MigrateEnd d none = ⊥
  MigrateEnd d (some (o, c)) = EndsWith d o (committed D c)

  -- No function panics in the loop.
  NoPanic : Option (Outcome × Conn) → Type 0
  NoPanic (some (panics_with p, c)) = ⊥
  NoPanic _ = Unit {0}

  next_round-NoPanic :
      (rest : ℤ → Conn → Option (Outcome × Conn)) (r : Result ℤ × Conn)
      → ((v : ℤ) (c : Conn) → NoPanic (rest v c))
      → NoPanic (next_round D S rest r)
  unfolding NoPanic
  next_round-NoPanic rest (ok v, c) h = h (succ v) c
  next_round-NoPanic rest (err e, c) h = tt

  at_index-NoPanic :
      (rest : ℤ → Conn → Option (Outcome × Conn)) (body : String → Run Conn ℤ) (o : Option String)
      (c : Conn)
      → ((v : ℤ) (c : Conn) → NoPanic (rest v c))
      → NoPanic (at_index D S rest body o c)
  unfolding NoPanic
  at_index-NoPanic rest body none c h = tt
  at_index-NoPanic rest body (some m) c h = next_round-NoPanic rest (body m c) h

  loop-NoPanic : (fks : Bool) (fuel : ℕ) (v : ℤ) (c : Conn) → NoPanic (loop D S sch fks fuel v c)
  unfolding NoPanic loop
  loop-NoPanic fks zero v c = tt
  loop-NoPanic fks (suc fuel) (negsuc n) c = tt
  loop-NoPanic fks (suc fuel) (pos v) c =
      at_index-NoPanic (loop D S sch fks fuel) (round D S sch fks v) (get_elem? sch.migrations v) c
        (λ v c. loop-NoPanic fks fuel v c)

module _ (D : Database) (laws : DatabaseLaws D) (S : Store D) (store_laws : StoreLaws D S)
    (sch : Schema) where
  open D use {Conn, Db, db, frames}

  prepare_loop-Post :
      (c : Conn)
      → Post
          (λ _ c'. committed D c' ≡ committed D c)
          (λ _ c'. committed D c' ≡ committed D c)
          (prepare_loop D S c)
  unfolding prepare_loop
  prepare_loop-Post c =
      Post-bind {P = λ _ t. committed D t ≡ committed D c} (S.query foreign_keys) _ c
        (called-Post (S.query foreign_keys) c
          (λ a h.
            committed-Unchanged D laws S store_laws c _ (store_laws.answered foreign_keys c a h))
          (λ e h.
            committed-Refused D laws S store_laws c _ (store_laws.not_answered foreign_keys c e h)))
        (λ enabled t p.
          Post-bind {P = λ _ t. committed D t ≡ committed D c}
            (checked (S.prepare (begin immediate))) (λ _. checked (S.prepare commit) >> pure _) t
            (let q =
                committed-Unchanged D laws S store_laws t _
                  (store_laws.prepared (begin immediate) t)
                ∙ p in
              checked-Post (S.prepare (begin immediate)) t (λ _. q) (λ _ _. q))
            (λ _ t p.
              Post-bind {P = λ _ t. committed D t ≡ committed D c} (checked (S.prepare commit))
                (λ _. pure _) t
                (let q =
                    committed-Unchanged D laws S store_laws t _ (store_laws.prepared commit t)
                    ∙ p in
                  checked-Post (S.prepare commit) t (λ _. q) (λ _ _. q))
                (λ _ t p. returns p)))

  explained :
      (o : Outcome) (c : Conn) (d : Db)
      → NoPanic D S sch (some (o, c))
      → History D S sch d (committed D c)
      → HistoryUnlessPanic D S sch d o (committed D c)
  unfolding NoPanic
  explained (panics_with p) c d n h = absurd n
  explained done c d n h = h
  explained (fails_with x) c d n h = h
  explained (index_out_of_range z) c d n h = h

  loop-Explained :
      (fks : Bool) (fuel : ℕ) (v : ℤ) (c : Conn) (d : Db)
      → History D S sch d (committed D c)
      → (r : Option (Outcome × Conn)) → loop D S sch fks fuel v c ≡ r
      → Explained D S sch d r
  loop-Explained fks fuel v c d h none e = tt
  loop-Explained fks fuel v c d h (some (o, c')) e =
      explained o c' d (subst (NoPanic D S sch) e (loop-NoPanic D S sch fks fuel v c))
        (loop-History-from D laws S store_laws sch fks fuel v c o c' d h e)

  run_loop-Explained :
      (fuel : ℕ) (v : ℤ) (c : Conn) (d : Db) (r : Result Bool × Conn)
      → History D S sch d (committed D c)
      → Post (λ _ c'. committed D c' ≡ committed D c) (λ _ c'. committed D c' ≡ committed D c) r
      → Explained D S sch d (run_loop D S sch fuel v r)
  run_loop-Explained fuel v c d _ h (fails e) = subst (History D S sch d) (sym e) h
  run_loop-Explained fuel v c d _ h (returns {a = fks} {s = c'} e) =
      loop-Explained fks fuel v c' d (subst (History D S sch d) (sym e) h) _ refl

  when_checked-Explained :
      (fuel : ℕ) (c : Conn) (r : (Result ℤ ⊎ Panic) × Conn)
      → Identified D S sch.app_id c r
      → Explained D S sch (committed D c) (when_checked D S sch fuel r)
  when_checked-Explained fuel c _ (panicked k) = k
  when_checked-Explained fuel c _ (refused (inl e)) = subst (History D S sch _) (sym e) unchanged
  when_checked-Explained fuel c _ (refused (inr o)) = others unchanged o
  when_checked-Explained fuel c _ (identified {c' = c'} d o fit closed now) =
      run_loop-Explained fuel (S.version d) c' _ _
        (subst (History D S sch _) (sym (ap₂ (base D) closed now))
          (identified_history (others unchanged o)))
        (prepare_loop-Post c')

  committed-set_interrupt :
      (ch : Option ℕ) (c : Conn) → committed D (D.set_interrupt ch c).1 ≡ committed D c
  committed-set_interrupt ch c =
      committed-Unchanged D laws S store_laws c _ (laws.interrupt_set ch c).2

  back-Explained :
      (d : Db) (old : Option ℕ) (r : Option (Outcome × Conn))
      → Explained D S sch d r
      → Explained D S sch d (interrupt_back D S old r)
  back-Explained d old none x = tt
  back-Explained d old (some (o, c)) x =
      subst (HistoryUnlessPanic D S sch d o) (sym (committed-set_interrupt old c)) x

  -- However migrateDB ends, it has only committed the application ID and whole migrations, each on
  -- contents of its version; or it panics, and a ROLLBACK run with no interrupt, before anything was
  -- committed, failed. Of ExecScript, the runs in which it returns are covered.
  pub migrate_db-Explained :
      (channel : Option ℕ) (fuel : ℕ) (c : Conn)
      → Explained D S sch (committed D c) (migrate_db D S sch channel fuel c)
  unfolding migrate_db
  migrate_db-Explained channel fuel c = back-Explained _ _ _ (
      subst
        (λ d.
          Explained D S sch d (
            when_checked D S sch fuel (ensure_app_id D S sch.app_id (D.set_interrupt channel c).1)))
        (committed-set_interrupt channel c)
        (when_checked-Explained fuel _ _
          (ensure_app_id-Identified D laws S store_laws sch.app_id (D.set_interrupt channel c).1)))

  abbrev pub InterruptIs : Option ℕ → Option (Outcome × Conn) → Type 0
  InterruptIs ch none = Unit {0}
  InterruptIs ch (some (o, c)) = D.interrupt c ≡ ch

  back-InterruptIs :
      (old : Option ℕ) (r : Option (Outcome × Conn)) → InterruptIs old (interrupt_back D S old r)
  back-InterruptIs old none = tt
  back-InterruptIs old (some (o, c)) = (laws.interrupt_set old c).1

  -- However migrateDB ends, the connection has the interrupt that it had before.
  pub migrate_db-InterruptIs :
      (channel : Option ℕ) (fuel : ℕ) (c : Conn)
      → InterruptIs (D.interrupt c) (migrate_db D S sch channel fuel c)
  unfolding migrate_db
  migrate_db-InterruptIs channel fuel c =
      subst (λ old. InterruptIs old (migrate_db D S sch channel fuel c))
        (laws.interrupt_set channel c).0 (back-InterruptIs _ _)

  module _
      (grows : (d e : Db) (n : ℕ)
        → S.Others d e
        → S.version d ≡ pos n
        → AtLeast D S sch n (S.version e))
      (keeps : (d : Db) → S.version (S.run (alone sch.repeatable_migration) d) ≡ S.version d) where
    loop-MigrateEnd :
        (d : Db) (fks : Bool) (fuel : ℕ) (z : ℤ) (c : Conn)
        → length sch.migrations < fuel
        → AtLeast D S sch 0 z
        → S.version (committed D c) ≡ z
        → MigrateEnd D S sch d (loop D S sch fks fuel z c)
    loop-MigrateEnd d fks fuel z c enough (n, is_n, _) known =
        let (o, c', e, end) =
          loop-ends D laws S store_laws sch grows keeps fks fuel n c (omega arith)
            (n, known ∙ is_n, omega arith) in
        subst (λ z. MigrateEnd D S sch d (loop D S sch fks fuel z c)) (sym is_n)
          (subst (MigrateEnd D S sch d) (sym e) (at_end o c' end))
      where
        at_end :
            (o : Outcome) (c' : Conn) → LoopEnd D S sch o c' → EndsWith D S sch d o (committed D c')
        at_end done c' p = p
        at_end (fails_with x) c' p = tt
        at_end (index_out_of_range z) c' p = p
        at_end (panics_with x) c' p = absurd p

    run_loop-MigrateEnd :
        (d : Db) (fuel : ℕ) (z : ℤ) (c : Conn) (r : Result Bool × Conn)
        → length sch.migrations < fuel
        → AtLeast D S sch 0 z
        → S.version (committed D c) ≡ z
        → Post (λ _ c'. committed D c' ≡ committed D c) (λ _ c'. committed D c' ≡ committed D c) r
        → MigrateEnd D S sch d (run_loop D S sch fuel z r)
    run_loop-MigrateEnd d fuel z c _ enough low known (fails e) = tt
    run_loop-MigrateEnd d fuel z c _ enough low known (returns {a = fks} {s = c'} e) =
        loop-MigrateEnd d fks fuel z c' enough low (ap S.version e ∙ known)

    when_checked-MigrateEnd :
        (fuel : ℕ) (c : Conn) (r : (Result ℤ ⊎ Panic) × Conn)
        → length sch.migrations < fuel
        → ((d : Db) → S.Others (committed D c) d → AtLeast D S sch 0 (S.version d))
        → Identified D S sch.app_id c r
        → MigrateEnd D S sch (committed D c) (when_checked D S sch fuel r)
    when_checked-MigrateEnd fuel c _ enough low (panicked k) = k
    when_checked-MigrateEnd fuel c _ enough low (refused _) = tt
    when_checked-MigrateEnd fuel c _ enough low (identified {c' = c'} d o fit closed now) =
        run_loop-MigrateEnd _ fuel (S.version d) c' _ enough (low d o)
          (ap S.version (ap₂ (base D) closed now) ∙ store_laws.version_marked sch.app_id d)
          (prepare_loop-Post c')

    back-MigrateEnd :
        (d : Db) (old : Option ℕ) (r : Option (Outcome × Conn))
        → MigrateEnd D S sch d r
        → MigrateEnd D S sch d (interrupt_back D S old r)
    back-MigrateEnd d old none x = x
    back-MigrateEnd d old (some (o, c)) x =
        subst (EndsWith D S sch d o) (sym (committed-set_interrupt old c)) x

    -- With a fuel above the number of migrations, migrateDB ends. If it returns without an error, the
    -- version of the committed contents is at least the number of migrations; if it panics, a ROLLBACK
    -- run with no interrupt, before anything was committed, failed; it never indexes out of range.
    -- Conditions: the version that it finds at first is not negative, other processes never lower a
    -- version, and the repeatable script does not set it. Of ExecScript, the runs in which it returns are
    -- covered.
    pub migrate_db-ends :
        (channel : Option ℕ) (fuel : ℕ) (c : Conn)
        → length sch.migrations < fuel
        → ((d : Db) → S.Others (committed D c) d → AtLeast D S sch 0 (S.version d))
        → MigrateEnd D S sch (committed D c) (migrate_db D S sch channel fuel c)
    unfolding migrate_db
    migrate_db-ends channel fuel c enough low = back-MigrateEnd _ _ _ (
        subst
          (λ d. MigrateEnd D S sch d (
            when_checked D S sch fuel (ensure_app_id D S sch.app_id (D.set_interrupt channel c).1)))
          (committed-set_interrupt channel c)
          (when_checked-MigrateEnd fuel _ _ enough
            (λ d o. low d (subst (λ e. S.Others e d) (committed-set_interrupt channel c) o))
            (ensure_app_id-Identified D laws S store_laws sch.app_id
              (D.set_interrupt channel c).1)))
