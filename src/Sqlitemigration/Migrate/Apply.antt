-- ===== src/Sqlitemigration/Migrate/Apply.antt =====
-- The transaction of one migration: all of it is committed, or the committed contents stay.
use Prim.Native.String.{String}
use go_sqlite.Base.{
  ◌≡◌, refl, sym, ap, ap₂, ◌∙◌, subst, inl, inr, ℕ, suc, Bool, true, false, Option, none, some, [],
  ◌∷◌, Bool-cases, if◌then◌else◌,
}
use go_sqlite.Errors.{Error, Result}
use go_sqlite.Sqlitex.Database.{Database, DatabaseLaws, Sql, commit, rollback, base, Unchanged}
use go_sqlite.Sqlitex.Savepoint.Transaction.{autocommit_true}
use go_sqlite.Run.{Run, ◌>>◌, Post, returns, fails, Post-bind, checked, checked-Post}
use go_sqlite.Sqlitemigration.Store.{
  Store, StoreLaws, Script, with_version, alone, committed, Refused,
}
use go_sqlite.Sqlitemigration.Migrate.{
  Schema, repeats, step_and_reset, rolled_back, undone_if_failed, rolling_back, when, apply,
}

module _ (D : Database) (S : Store D) where
  open D use {Conn, Db, db, frames}

  -- In the transaction that began at contents `start`, with the contents `now`.
  abbrev pub IsInside : Db → Db → Conn → Type 0
  IsInside start now c = (frames c ≡ (none, start) ∷ []) × (db c ≡ now)

  -- What the scripts of the migration with the index make of the contents.
  abbrev pub with_repeatable : Bool → String → Db → Db
  with_repeatable b m d = if b then S.run (alone m) d else d

  abbrev pub migrated : Schema → ℕ → String → Db → Db
  migrated sch v m d =
      with_repeatable (repeats sch v) sch.repeatable_migration (S.run (with_version m (suc v)) d)

  -- No transaction is open, or a ROLLBACK failed here.
  pub data IsClosed : Conn → Type 0 where
    closed : {c : Conn} → frames c ≡ [] → IsClosed c
    rollback_failed :
        (c : Conn) (e : Error)
        → (D.execute rollback c).0 ≡ some e
        → IsClosed (D.execute rollback c).1

module _ (D : Database) (laws : DatabaseLaws D) (S : Store D) (store_laws : StoreLaws D S) where
  open D use {Conn, Db, db, frames, execute}

  pub IsInside-committed : (a b : Db) (c : Conn) → IsInside D S a b c → committed D c ≡ a
  IsInside-committed a b c (f, d) = ap₂ (base D) f d

  pub committed-Unchanged : (c c' : Conn) → Unchanged D c c' → committed D c' ≡ committed D c
  committed-Unchanged c c' (f, d) = ap₂ (base D) f d

  pub committed-Refused : (c c' : Conn) → Refused D S c c' → committed D c' ≡ committed D c
  committed-Refused c c' (inl same) = committed-Unchanged c c' same
  committed-Refused c c' (inr (f, d)) = ap₂ (base D) f d

  pub Unchanged-Refused : (c t c' : Conn) → Unchanged D c t → Refused D S t c' → Refused D S c c'
  Unchanged-Refused c t c' (f, d) (inl (g, e)) = inl (g ∙ f, e ∙ d)
  Unchanged-Refused c t c' (f, d) (inr (g, e)) = inr (g, e ∙ ap₂ (base D) f d)

  rollback_keeps :
      (c : Conn) (o : Option Error)
      → (execute rollback c).0 ≡ o
      → committed D (execute rollback c).1 ≡ committed D c
  rollback_keeps c none e = committed-Refused c _ (inr (laws.rolled_back c e))
  rollback_keeps c (some x) e = committed-Refused c _ (laws.failed rollback c x e)

  pub committed-rolled_back : (c : Conn) → committed D (rolled_back D S c) ≡ committed D c
  unfolding rolled_back
  committed-rolled_back c = elim (Bool-cases (D.autocommit c)) [
    | inl done ↦ rw done refl
    | inr still ↦ rw still (rollback_keeps c (execute rollback c).0 refl)
  ]

  rollback_ends :
      (c : Conn) (o : Option Error)
      → (execute rollback c).0 ≡ o
      → IsClosed D S (execute rollback c).1
  rollback_ends c none e = closed (laws.rolled_back c e).0
  rollback_ends c (some x) e = rollback_failed c x e

  pub rolled_back-IsClosed : (c : Conn) → IsClosed D S (rolled_back D S c)
  unfolding rolled_back
  rolled_back-IsClosed c = elim (Bool-cases (D.autocommit c)) [
    | inl done ↦ rw done (closed (autocommit_true D laws c done))
    | inr still ↦ rw still (rollback_ends c (execute rollback c).0 refl)
  ]

  -- The contents committed are those of the start, and the transaction is closed.
  abbrev pub IsUndone : Db → Conn → Type 0
  IsUndone start c = (committed D c ≡ start) × IsClosed D S c

  pub rolling_back-Post :
      {A : Type 0} {Q : A → Conn → Type 0} (d : Db) {r : Result A × Conn}
      → Post Q (λ e c. committed D c ≡ d) r
      → Post Q (λ e c. IsUndone d c) (undone_if_failed D S r)
  rolling_back-Post d (returns q) = returns q
  rolling_back-Post d (fails {s = c} x) =
      fails (committed-rolled_back c ∙ x, rolled_back-IsClosed c)

  pub when-Post :
      {Q : Unit {0} → Conn → Type 0} {R : Error → Conn → Type 0} (b : Bool)
      (m : Run Conn (Unit {0})) (c : Conn)
      → (b ≡ true → Post Q R (m c))
      → (b ≡ false → Q tt c)
      → Post Q R (when D S b m c)
  when-Post true m c on off = on refl
  when-Post false m c on off = returns (off refl)

  module _ {Q : Unit {0} → Conn → Type 0} {R : Error → Conn → Type 0} where
    reset_behind :
        (s : Sql) (c t : Conn)
        → (execute s c).0 ≡ none
        → t ≡ (S.step s c).1
        → ((t : Conn) → Unchanged D (execute s c).1 t → Q tt t)
        → Post Q R (checked (S.reset s) t)
    reset_behind s c t went e good =
        let (reset_went, same) =
          store_laws.reset_ok s c (ap (λ x. x.0) (store_laws.step_eq s c) ∙ went) in
        checked-Post (S.reset s) t
          (λ h. good _ (
            subst (λ x. Unchanged D x (S.reset s t).1) (ap (λ x. x.1) (store_laws.step_eq s c))
              (subst (λ x. Unchanged D (S.step s c).1 (S.reset s x).1) (sym e) same)))
          (λ x h. absurd (cc (ap (λ y. (S.reset s y).0) e, reset_went, h)))

    -- A statement that is stepped and reset does what it does where it is executed.
    pub step_and_reset-Post :
        (s : Sql) (c : Conn)
        → ((execute s c).0 ≡ none → (t : Conn) → Unchanged D (execute s c).1 t → Q tt t)
        → ((e : Error) → (execute s c).0 ≡ some e → R e (execute s c).1)
        → Post Q R (step_and_reset D S s c)
    unfolding step_and_reset
    step_and_reset-Post s c good bad =
        Post-bind {P = λ _ t. ((execute s c).0 ≡ none) × (t ≡ (S.step s c).1)} (checked (S.step s))
          (λ _. checked (S.reset s)) c
          (checked-Post (S.step s) c (λ h. (sym (ap (λ x. x.0) (store_laws.step_eq s c)) ∙ h, refl))
            (λ e h.
              subst (R e) (sym (ap (λ x. x.1) (store_laws.step_eq s c)))
                (bad e (sym (ap (λ x. x.0) (store_laws.step_eq s c)) ∙ h))))
          (λ _ t (went, e). reset_behind s c t went e (good went))

  script-Post :
      (start now : Db) (s : Script) (c : Conn)
      → IsInside D S start now c
      → Post
          (λ _. IsInside D S start (S.run s now))
          (λ e c'. committed D c' ≡ start)
          (checked (S.exec_script s) c)
  script-Post start now s c inside =
      checked-Post (S.exec_script s) c
        (λ h. let (f, d) = store_laws.script_run s c h in (f ∙ inside.0, d ∙ ap (S.run s) inside.1))
        (λ e h.
          committed-Refused c _ (store_laws.script_refused s c e h)
          ∙ IsInside-committed start now c inside)

  commit-Post :
      (start now : Db) (c : Conn)
      → IsInside D S start now c
      → Post
          (λ _ c'. (frames c' ≡ []) × (db c' ≡ now))
          (λ e c'. committed D c' ≡ start)
          (step_and_reset D S commit c)
  commit-Post start now c inside =
      step_and_reset-Post commit c
        (λ h t (f, d). let (f', d') = laws.committed c h in (f ∙ f', d ∙ d' ∙ inside.1))
        (λ e h.
          committed-Refused c _ (laws.failed commit c e h) ∙ IsInside-committed start now c inside)

  repeatable-Post :
      (start now : Db) (b : Bool) (m : String) (c : Conn)
      → IsInside D S start now c
      → Post
          (λ _. IsInside D S start (with_repeatable D S b m now))
          (λ e c'. IsUndone start c')
          (when D S b (rolling_back D S (checked (S.exec_script (alone m)))) c)
  repeatable-Post start now true m c inside =
      rolling_back-Post start (script-Post start now (alone m) c inside)
  repeatable-Post start now false m c inside = returns inside

  -- The scripts run as a whole in the transaction, and end it; or nothing of them is
  -- committed and the transaction is rolled back.
  pub apply-Post :
      (sch : Schema) (v : ℕ) (m : String) (start : Db) (c : Conn)
      → IsInside D S start start c
      → Post
          (λ _ c'. (frames c' ≡ []) × (db c' ≡ migrated D S sch v m start))
          (λ e c'. IsUndone start c')
          (apply D S sch v m c)
  unfolding apply
  apply-Post sch v m start c inside =
      Post-bind scripts (λ _. repeatable >> end) c
        (rolling_back-Post start (script-Post start start (with_version m (suc v)) c inside))
        (λ _ c1 in1.
          Post-bind repeatable (λ _. end) c1
            (repeatable-Post start _ (repeats sch v) sch.repeatable_migration c1 in1)
            (λ _ c2 in2. rolling_back-Post start (commit-Post start _ c2 in2)))
    where
      scripts : Run Conn (Unit {0})
      scripts = rolling_back D S (checked (S.exec_script (with_version m (suc v))))

      repeatable : Run Conn (Unit {0})
      repeatable =
          when D S (repeats sch v)
            (rolling_back D S (checked (S.exec_script (alone sch.repeatable_migration))))

      end : Run Conn (Unit {0})
      end = rolling_back D S (step_and_reset D S commit)
