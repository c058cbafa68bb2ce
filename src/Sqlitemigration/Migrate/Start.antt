-- ===== src/Sqlitemigration/Migrate/Start.antt =====
-- ensureAppID: the transaction in which a database is identified and its version is read.
use go_sqlite.Base.{
  ◌≡◌, refl, sym, ap, ap₂, ◌∙◌, subst, ◌⊎◌, inl, inr, arith, Bool, true, false, ◌&&◌, ◌||◌, not,
  Option, none, some, [], Bool-cases, if◌then◌else◌,
}
use go_sqlite.Base.Int.{ℤ, pos, is_nat, is_nat-eq, is_int, is_int-eq}
use go_sqlite.Errors.{Error, Result, ok, err}
use go_sqlite.Sqlitex.Database.{Database, DatabaseLaws, begin, rollback, immediate, base}
use go_sqlite.Sqlitex.Savepoint.{
  Panic, cleanup, Exit, Ended, returns as exits, has, ends_transaction, run_end, begun_by,
  transaction, or_error, immediate_transaction,
}
use go_sqlite.Sqlitex.Savepoint.Transaction.{
  Stuck, end_transaction_atomic, autocommit_true, end_transaction-autocommit,
}
use go_sqlite.Run.{
  Run, ◌>>=◌, ◌>>◌, Post, returns, fails, Post-bind, checked, checked-Post, called-Post, pure, fail,
}
use go_sqlite.Sqlitemigration.Store.{
  Store, StoreLaws, Query, has_schema, application_id, user_version, set_application_id, committed,
}
use go_sqlite.Sqlitemigration.Migrate.{
  error_of, check_app_id, ending, run_deferred, when_begun, ensure_app_id,
}
use go_sqlite.Sqlitemigration.Migrate.Apply.{IsInside, IsInside-committed, committed-Refused}

module _ (D : Database) (S : Store D) where
  open D use {Conn, Db, frames, interrupt, execute}

  -- The contents have the application ID, or they have no tables and the ID 0.
  abbrev pub IsAcceptable : ℤ → Db → Type 0
  IsAcceptable want d = (S.app_id d ≡ want) ⊎ ((S.app_id d ≡ pos 0) × (S.tables d ≡ pos 0))

  -- ROLLBACK was run with no interrupt, on a connection with the committed contents `d` as other processes
  -- may have left them, and failed; the panic is its error, with the one before it.
  pub record RollbackFailed (d : Db) (p : Panic) : Type 0 where
    pub before : Conn
    pub first : Option Error
    pub why : Error
    pub nothing_done : S.Others d (committed D before)
    pub no_interrupt : interrupt before ≡ none
    pub rollback_failed : (execute rollback before).0 ≡ some why
    pub shown : p ≡ cleanup first why

module _ (D : Database) (S : Store D) (want : ℤ) (c : D.Conn) where
  open D use {Conn, Db, db, frames}

  -- What the function returns: the version of the contents that it found, which had the application ID or
  -- neither one nor tables, with the application ID set in them; or an error, and nothing is committed; or
  -- it panics, as ROLLBACK failed.
  pub data Identified : (Result ℤ ⊎ Panic) × Conn → Type 0 where
    identified :
        {c' : Conn} (d : Db)
        → S.Others (committed D c) d
        → IsAcceptable D S want d
        → frames c' ≡ []
        → db c' ≡ S.mark want d
        → Identified (inl (ok (S.version d)), c')
    refused :
        {e : Error} {c' : Conn}
        → (committed D c' ≡ committed D c) ⊎ S.Others (committed D c) (committed D c')
        → Identified (inl (err e), c')
    panicked :
        {p : Panic} {c' : Conn} → RollbackFailed D S (committed D c) p → Identified (inr p, c')

module _ (D : Database) (laws : DatabaseLaws D) (S : Store D) (store_laws : StoreLaws D S) where
  open D use {Conn, Db, db, frames, execute}

  module _ (start : Db) where
    CheckPost : ℤ → Run Conn ℤ → Conn → Type 0
    CheckPost want r t =
        Post
          (λ v t'.
            (v ≡ S.version start)
            × IsAcceptable D S want start
            × IsInside D S start (S.mark want start) t')
          (λ _ t'. committed D t' ≡ start) (r t)

    mark-Post :
        (want v : ℤ) (t : Conn)
        → v ≡ S.version start
        → IsAcceptable D S want start
        → IsInside D S start start t
        → CheckPost want (checked (S.pragma (set_application_id want)) >> pure v) t
    unfolding CheckPost
    mark-Post want v t e fit inside =
        Post-bind {P = λ _. IsInside D S start (S.mark want start)}
          (checked (S.pragma (set_application_id want))) (λ _. pure v) t
          (checked-Post (S.pragma (set_application_id want)) t
            (λ h.
              let (f, d) = store_laws.marked want t h in
              (f ∙ inside.0, d ∙ ap (S.mark want) inside.1))
            (λ x h.
              committed-Refused D laws S store_laws t _ (store_laws.not_marked want t x h)
              ∙ IsInside-committed D laws S store_laws start start t inside))
          (λ _ t' p. returns (e, fit, p))

    -- A query in the transaction: what follows starts in the same transaction.
    ask-Post :
        (want : ℤ) (q : Query) (f : ℤ → Run Conn ℤ) (t : Conn)
        → IsInside D S start start t
        → ((a : ℤ) (t' : Conn)
            → (S.query q t).0 ≡ ok a
            → IsInside D S start start t'
            → CheckPost want (f a) t')
        → CheckPost want (S.query q >>= f) t
    unfolding CheckPost
    ask-Post want q f t inside k =
        Post-bind {P = λ a t'. ((S.query q t).0 ≡ ok a) × IsInside D S start start t'} (S.query q) f
          t
          (called-Post (S.query q) t
            (λ a h. let (g, d) = store_laws.answered q t a h in (h, (g ∙ inside.0, d ∙ inside.1)))
            (λ x h.
              committed-Refused D laws S store_laws t _ (store_laws.not_answered q t x h)
              ∙ IsInside-committed D laws S store_laws start start t inside))
          (λ a t' (h, p). k a t' h p)

    test-Post :
        (want : ℤ) (b : Bool) (m : Error) (rest : Run Conn ℤ) (t : Conn)
        → IsInside D S start start t
        → (b ≡ false → CheckPost want rest t)
        → CheckPost want ((if b then fail m else pure tt) >> rest) t
    unfolding CheckPost
    test-Post want true m rest t inside k =
        fails (IsInside-committed D laws S store_laws start start t inside)
    test-Post want false m rest t inside k = k refl

    -- The test that the function makes of the two answers.
    test-IsAcceptable :
        (want id tables : ℤ)
        → id ≡ S.app_id start
        → tables ≡ S.tables start
        → (not (is_int id want) && not (is_nat id 0 && is_nat tables 0)) ≡ false
        → IsAcceptable D S want start
    test-IsAcceptable want id tables is_id is_tables passed = elim (Bool-cases (is_int id want)) [
      | inl same ↦ inl (sym is_id ∙ is_int-eq id want same)
      | inr other ↦
          let z : is_nat id 0 ≡ true = ground (arith, passed, other) in
          let y : is_nat tables 0 ≡ true = ground (arith, passed, other) in
          inr (sym is_id ∙ is_nat-eq id 0 z, sym is_tables ∙ is_nat-eq tables 0 y)
    ]

    check_app_id-Post :
        (want : ℤ) (t : Conn)
        → IsInside D S start start t
        → CheckPost want (check_app_id D S want) t
    unfolding check_app_id
    check_app_id-Post want t inside = ask-Post want has_schema _ t inside (λ tables t1 h1 in1.
        ask-Post want application_id _ t1 in1 (λ id t2 h2 in2.
          test-Post want (not (is_int id want) && not (is_nat id 0 && is_nat tables 0)) _ _ t2 in2
            (λ passed. ask-Post want user_version _ t2 in2 (λ v t3 h in3.
              mark-Post want v t3 (store_laws.version_answered t2 v h ∙ ap S.version in2.1)
                (test-IsAcceptable want id tables
                  (store_laws.app_id_answered t1 id h2 ∙ ap S.app_id in1.1)
                  (store_laws.tables_answered t tables h1 ∙ ap S.tables inside.1) passed)
                in3))))

  module _ (want : ℤ) (c : Conn) (start : Db) (o : S.Others (committed D c) start) where
    AtEnd : Result ℤ → Conn → Type 0
    AtEnd r t =
        Post
          (λ v t'.
            (v ≡ S.version start)
            × IsAcceptable D S want start
            × IsInside D S start (S.mark want start) t')
          (λ _ t'. committed D t' ≡ start) (r, t)

    at_start : (r : Result ℤ) (t : Conn) → AtEnd r t → committed D t ≡ start
    unfolding AtEnd
    at_start _ _ (returns {s = t} (e, fit, inside)) =
        IsInside-committed D laws S store_laws start _ t inside
    at_start _ _ (fails e) = e

    -- COMMIT was run.
    committed_end :
        (r : Result ℤ) (t u : Conn) (x : Exit) (y : Option Error)
        → AtEnd r t
        → error_of r ≡ none
        → x ≡ exits
        → y ≡ none
        → frames u ≡ []
        → db u ≡ db t
        → Identified D S want c (ending x y r, u)
    unfolding AtEnd
    committed_end _ _ u x y (fails e) plain a b closed kept = cc (plain)
    committed_end _ _ u x y (returns {a = v} {s = t} (e, fit, inside)) plain a b closed kept =
        rw (a, b, e) (identified start o fit closed (kept ∙ inside.1))

    undone_end :
        (r : Result ℤ) (u : Conn) (x : Exit) (y : Option Error)
        → committed D u ≡ start
        → x ≡ exits
        → (has y || false) ≡ true
        → Identified D S want c (ending x y r, u)
    undone_end r u x none back a failure = absurd (cc (failure))
    undone_end r u x (some z) back a failure =
        rw a (refused (inr (subst (S.Others (committed D c)) (sym back) o)))

    stuck_end :
        (r : Result ℤ) (t : Conn) (errp : Option Error) (x : Ended D)
        → AtEnd r t
        → Stuck D t errp x
        → Identified D S want c (ending x.exit x.errp r, x.conn)
    stuck_end r t errp x p k = rw k.exit (
        panicked (record {
          before = k.before;
          first = k.first;
          why = k.why;
          nothing_done =
              subst (S.Others (committed D c))
                (sym (ap₂ (base D) k.same.0 k.same.1 ∙ at_start r t p)) o;
          no_interrupt = k.no_interrupt;
          rollback_failed = k.rollback_failed;
          shown = refl;
        }))

    -- SQLite has rolled back before the end: only where there is an error.
    closed_end :
        (r : Result ℤ) (t : Conn)
        → AtEnd r t
        → frames t ≡ []
        → Identified D S want c (ending exits (error_of r) r, t)
    unfolding AtEnd
    closed_end _ _ (fails {s = t} e) closed =
        refused (inr (subst (S.Others (committed D c)) (sym e) o))
    closed_end _ _ (returns (e, fit, inside)) closed = absurd (cc (inside.0, closed))

    run_deferred-Identified :
        (r : Result ℤ) (t : Conn)
        → AtEnd r t
        → Identified D S want c (run_deferred D S ends_transaction (r, t))
    unfolding run_end
    run_deferred-Identified r t p = elim (Bool-cases (D.autocommit t)) [
      | inl closed ↦
          rw (end_transaction-autocommit D laws none (error_of r) t closed)
            (closed_end r t p (autocommit_true D laws t closed))
      | inr still ↦ elim (end_transaction_atomic D laws none (error_of r) t still).0 [
        | inl k ↦ committed_end r t _ _ _ p k.no_error k.exit k.errp_left k.closed k.kept
        | inr (inl u) ↦
            undone_end r _ _ _ (ap₂ (base D) u.undone.0 u.undone.1 ∙ at_start r t p) u.exit
              u.failure
        | inr (inr k) ↦ stuck_end r t (error_of r) _ p k
      ]
    ]

  begun-Identified :
      (want : ℤ) (c : Conn) (r : Option Error)
      → (execute (begin immediate) c).0 ≡ r
      → Identified D S want c (
          when_begun D S want
            (or_error D (begun_by D ends_transaction (r, (execute (begin immediate) c).1))))
  unfolding AtEnd CheckPost
  begun-Identified want c (some e) h =
      refused
        (inl (committed-Refused D laws S store_laws c _ (laws.failed (begin immediate) c e h)))
  begun-Identified want c none h =
      let (none_open, now_open) = laws.begun immediate c h in
      let o =
        subst (λ x. S.Others x (db (execute (begin immediate) c).1))
          (sym (ap (λ fs. base D fs (db c)) none_open))
          (store_laws.others_at_begin immediate c h) in
      run_deferred-Identified want c (db (execute (begin immediate) c).1) o _ _ (
        check_app_id-Post (db (execute (begin immediate) c).1) want (execute (begin immediate) c).1
          (now_open, refl))

  -- ensureAppID commits the application ID and returns the version of the contents that it found, which
  -- had the application ID, or the ID 0 and no tables; or it returns an error and commits nothing; or it
  -- panics, where ROLLBACK, run with no interrupt, failed.
  pub ensure_app_id-Identified :
      (want : ℤ) (c : Conn) → Identified D S want c (ensure_app_id D S want c)
  unfolding ensure_app_id immediate_transaction transaction
  ensure_app_id-Identified want c = begun-Identified want c (execute (begin immediate) c).0 refl
