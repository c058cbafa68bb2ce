-- ===== src/Sqlitex/Savepoint/Transaction.antt =====
-- A transaction is committed or undone as a whole, and the interrupt is put back.
use go_sqlite.Base.{
  ◌≡◌, refl, sym, ap, ap₂, ◌≢◌, ◌∙◌, ◌⊎◌, inl, inr, Option, none, some, true, false, [], is_empty,
  is_empty-eq, Bool-cases, arith, ◌||◌,
}
use go_sqlite.Errors.{Error}
use go_sqlite.Sqlitex.Database.{
  Database, DatabaseLaws, commit, rollback, RolledBack, Unchanged, base,
}
use go_sqlite.Sqlitex.Savepoint.{
  Panic, cleanup, returns, panics, has, resume, Ended, restoring, finish_undo, undo_transaction,
  after_commit, end_transaction,
}

module _ (D : Database) where
  open D use {Conn, db, frames, interrupt, execute}

  -- The changes are kept, there was no error, and no transaction is open.
  pub record Committed (c : Conn) (recovered : Option Panic) (errp : Option Error) (r : Ended D)
      : Type 0 where
    pub no_panic : recovered ≡ none
    pub no_error : errp ≡ none
    pub exit : r.exit ≡ returns
    pub errp_left : r.errp ≡ none
    pub closed : frames r.conn ≡ []
    pub kept : db r.conn ≡ db c

  -- The changes are undone, no transaction is open, an error that was there is still there, and
  -- there is an error or a panic, which goes on.
  pub record Undone (c : Conn) (recovered : Option Panic) (errp : Option Error) (r : Ended D)
      : Type 0 where
    pub exit : r.exit ≡ resume recovered
    pub failure : (has r.errp || has recovered) ≡ true
    pub errp_kept : (e : Error) → errp ≡ some e → r.errp ≡ some e
    pub undone : RolledBack D c r.conn

  -- ROLLBACK, which the function ran with no interrupt on the connection with what was changed, failed, and
  -- the function panics with that error and with the one before it.
  pub record Stuck (c : Conn) (errp : Option Error) (r : Ended D) : Type 0 where
    pub before : Conn
    pub first : Option Error
    pub why : Error
    pub same : Unchanged D c before
    pub no_interrupt : interrupt before ≡ none
    pub rollback_failed : (execute rollback before).0 ≡ some why
    pub errp_kept : (e : Error) → errp ≡ some e → first ≡ some e
    pub exit : r.exit ≡ panics (cleanup first why)

  abbrev pub EndOutcome : Conn → Option Panic → Option Error → Ended D → Type 0
  EndOutcome c recovered errp r =
      (Committed c recovered errp r ⊎ Undone c recovered errp r ⊎ Stuck c errp r)
      × (interrupt r.conn ≡ interrupt c)

module _ (D : Database) (laws : DatabaseLaws D) where
  open D use {Conn, db, frames, interrupt, execute, set_interrupt}

  -- Wherever the function puts the old interrupt back, it is the one from the start.
  pub restored : (c x : Conn) → interrupt (set_interrupt (set_interrupt none c).0 x).1 ≡ interrupt c
  restored c x = (laws.interrupt_set _ x).1 ∙ (laws.interrupt_set none c).0

  rolled_back_inside :
      (c c1 c2 c3 : Conn)
      → Unchanged D c c1
      → RolledBack D c1 c2
      → Unchanged D c2 c3
      → RolledBack D c c3
  rolled_back_inside c c1 c2 c3 (f, d) (g, u) (h, w) = (h ∙ g, w ∙ u ∙ ap₂ (base D) f d)

  pub autocommit_false : (c : Conn) → D.autocommit c ≡ false → frames c ≢ []
  autocommit_false c h e = cc (laws.autocommit_iff c, ap is_empty e)

  pub autocommit_true : (c : Conn) → D.autocommit c ≡ true → frames c ≡ []
  autocommit_true c h = is_empty-eq (frames c) (sym (laws.autocommit_iff c) ∙ h)

  undo_transaction-Undone :
      (recovered : Option Panic) (errp : Option Error) (c : Conn)
      → (has errp || has recovered) ≡ true
      → (Undone D c recovered errp (undo_transaction D recovered errp c)
          ⊎ Stuck D c errp (undo_transaction D recovered errp c))
        × (interrupt (undo_transaction D recovered errp c).conn ≡ interrupt c)
  unfolding undo_transaction
  undo_transaction-Undone recovered errp c failure =
      (by_result (execute rollback (set_interrupt none c).1).0 refl, restored c _)
    where
      c1 : Conn
      c1 = (set_interrupt none c).1

      c2 : Conn
      c2 = (execute rollback c1).1

      c3 : Conn
      c3 = (set_interrupt (set_interrupt none c).0 c2).1

      by_result :
          (o : Option Error)
          → (execute rollback c1).0 ≡ o
          → let r = restoring D (set_interrupt none c).0 (finish_undo D recovered errp (o, c2)) in
            Undone D c recovered errp r ⊎ Stuck D c errp r
      by_result (some e) q = inr (record {
        before = c1;
        first = errp;
        why = e;
        same = (laws.interrupt_set none c).2;
        no_interrupt = (laws.interrupt_set none c).1;
        rollback_failed = q;
        errp_kept = λ x h. h;
        exit = refl;
      })
      by_result none q = inl (record {
        exit = refl;
        failure = failure;
        errp_kept = λ e h. h;
        undone =
            rolled_back_inside c c1 c2 c3 (laws.interrupt_set none c).2 (laws.rolled_back c1 q)
              (laws.interrupt_set _ c2).2;
      })

  -- A statement failed, and no transaction is open: SQLite has rolled back.
  pub closed_by_failure :
      (c c1 : Conn)
      → D.autocommit c ≡ false
      → Unchanged D c c1 ⊎ RolledBack D c c1
      → D.autocommit c1 ≡ true
      → RolledBack D c c1
  closed_by_failure c c1 open_before (inr undone) closed = undone
  closed_by_failure c c1 open_before (inl (f, _)) closed =
      absurd (autocommit_false c open_before (sym f ∙ autocommit_true c1 closed))

  pub open_after_failure :
      (c c1 : Conn)
      → Unchanged D c c1 ⊎ RolledBack D c c1
      → D.autocommit c1 ≡ false
      → Unchanged D c c1
  open_after_failure c c1 (inl same) still = same
  open_after_failure c c1 (inr (f, _)) still = absurd (autocommit_false c1 still f)

  -- COMMIT failed: SQLite has rolled back, or the error path does.
  from_before :
      (c c1 : Conn) (e : Error) (r : Ended D)
      → Unchanged D c c1
      → Undone D c1 none (some e) r ⊎ Stuck D c1 (some e) r
      → Undone D c none none r ⊎ Stuck D c none r
  from_before c c1 e r (f, d) (inr stuck) = inr (record {
    before = stuck.before;
    first = stuck.first;
    why = stuck.why;
    same = (stuck.same.0 ∙ f, stuck.same.1 ∙ d);
    no_interrupt = stuck.no_interrupt;
    rollback_failed = stuck.rollback_failed;
    errp_kept = λ x h. cc;
    exit = stuck.exit;
  })
  from_before c c1 e r (f, d) (inl u) = inl (record {
    exit = u.exit;
    failure = ground (arith, u.errp_kept e refl);
    errp_kept = λ x h. cc;
    undone = (u.undone.0, u.undone.1 ∙ ap₂ (base D) f d);
  })

  after_commit-Undone :
      (c c1 : Conn) (e : Error)
      → D.autocommit c ≡ false
      → Unchanged D c c1 ⊎ RolledBack D c c1
      → let r = after_commit D (some e, c1) in
        (Undone D c none none r ⊎ Stuck D c none r) × (interrupt r.conn ≡ interrupt c1)
  after_commit-Undone c c1 e open_before how = elim (Bool-cases (D.autocommit c1)) [
    | inl closed ↦ rw closed (
      inl (record {
        exit = refl;
        failure = refl;
        errp_kept = λ x h. cc;
        undone = closed_by_failure c c1 open_before how closed;
      }),
      refl,
    )
    | inr still ↦ rw still (
        let (o, same) = undo_transaction-Undone none (some e) c1 refl in
        (from_before c c1 e _ (open_after_failure c c1 how still) o, same))
  ]

  pub end_transaction_atomic :
      (recovered : Option Panic) (errp : Option Error) (c : Conn)
      → D.autocommit c ≡ false
      → EndOutcome D c recovered errp (end_transaction D recovered errp c)
  unfolding end_transaction
  end_transaction_atomic (some p) none c open_before =
      rw (open_before, end_transaction)
        (let (o, same) = undo_transaction-Undone (some p) none c refl in (inr o, same))
  end_transaction_atomic (some p) (some e) c open_before =
      rw (open_before, end_transaction)
        (let (o, same) = undo_transaction-Undone (some p) (some e) c refl in (inr o, same))
  end_transaction_atomic none (some e) c open_before =
      rw (open_before, end_transaction)
        (let (o, same) = undo_transaction-Undone none (some e) c refl in (inr o, same))
  end_transaction_atomic none none c open_before =
      rw (open_before, end_transaction) (by_result (execute commit c).0 refl)
    where
      c1 : Conn
      c1 = (execute commit c).1

      by_result :
          (o : Option Error)
          → (execute commit c).0 ≡ o
          → EndOutcome D c none none (after_commit D (o, c1))
      by_result none q =
          let (closed, kept) = laws.committed c q in
          (
            inl (record {
              no_panic = refl;
              no_error = refl;
              exit = refl;
              errp_left = refl;
              closed = closed;
              kept = kept;
            }),
            laws.same_interrupt commit c,
          )
      by_result (some e) q =
          let (o, same) = after_commit-Undone c c1 e open_before (laws.failed commit c e q) in
          (inr o, same ∙ laws.same_interrupt commit c)

  -- Where SQLite has rolled back already, the function has nothing to do.
  pub end_transaction-autocommit :
      (recovered : Option Panic) (errp : Option Error) (c : Conn)
      → D.autocommit c ≡ true
      → end_transaction D recovered errp c
        ≡ record { exit = resume recovered; errp = errp; conn = c }
  unfolding end_transaction
  end_transaction-autocommit recovered errp c closed = rw closed refl
