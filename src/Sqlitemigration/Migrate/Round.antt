-- ===== src/Sqlitemigration/Migrate/Round.antt =====
-- One round of migrateDB's loop.
use Prim.Native.String.{String}
use go_sqlite.Base.{
  ◌≡◌, refl, sym, ap, ◌∙◌, subst, ◌≢◌, ℕ, Bool, inl, inr, [], ◌&&◌, Bool-cases, get_elem?,
}
use go_sqlite.Base.Int.{ℤ, pos, pred, is_nat, is_nat-eq, is_nat_refl}
use go_sqlite.Sqlitex.Database.{Database, DatabaseLaws, begin, immediate, base, Unchanged}
use go_sqlite.Run.{
  Run, ◌>>=◌, ◌>>◌, Post, returns, Post-bind, checked, checked-Post, called-Post, Post-weaken, pure,
}
use go_sqlite.Sqlitemigration.Store.{
  Refused, Store, StoreLaws, user_version, foreign_keys_off, foreign_keys_on, committed,
}
use go_sqlite.Sqlitemigration.Migrate.{
  Schema, asked_to_disable, step_and_reset, rolling_back, when, apply, apply_at, round,
}
use go_sqlite.Sqlitemigration.Migrate.Apply.{
  Unchanged-Refused, IsInside, IsClosed, IsUndone, rolled_back-IsClosed, migrated,
  IsInside-committed, committed-Unchanged, committed-Refused, committed-rolled_back,
  rolling_back-Post, when-Post, step_and_reset-Post, apply-Post,
}

module _ (D : Database) (S : Store D) (sch : Schema) (v : ℕ) (m : String) (c : D.Conn) where
  open D use {Conn, Db, db, frames}

  -- The round goes on: with the migration committed, on contents of its version, or with nothing
  -- committed and the transaction rolled back where the contents had another version.
  pub data Advanced : ℤ → Conn → Type 0 where
    applied :
        {c' : Conn} (d : Db)
        → S.Others (committed D c) d
        → S.version d ≡ pos v
        → frames c' ≡ []
        → db c' ≡ migrated D S sch v m d
        → Advanced (pos v) c'
    overtaken :
        {a : ℤ} {c' : Conn}
        → S.Others (committed D c) (committed D c')
        → S.version (committed D c') ≡ a
        → a ≢ pos v
        → IsClosed D S c'
        → Advanced (pred a) c'

  -- The round returns an error: it did not begin a transaction, or rolled it back, or all of the
  -- migration is committed.
  pub data Stopped : Conn → Type 0 where
    before : {c' : Conn} → Refused D S c c' → Stopped c'
    within : {c' : Conn} → S.Others (committed D c) (committed D c') → IsClosed D S c' → Stopped c'
    behind :
        {c' : Conn} (d : Db)
        → S.Others (committed D c) d
        → S.version d ≡ pos v
        → frames c' ≡ []
        → db c' ≡ migrated D S sch v m d
        → Stopped c'

module _ (D : Database) (laws : DatabaseLaws D) (S : Store D) (store_laws : StoreLaws D S) where
  open D use {Conn, Db, db, frames, execute}

  module _ (sch : Schema) (off : Bool) (v : ℕ) (m : String) (c : Conn) where
    RoundPost : Run Conn ℤ → Conn → Type 0
    RoundPost r t = Post (Advanced D S sch v m c) (λ _. Stopped D S sch v m c) (r t)

    Stopped-IsUndone :
        (d : Db) (t : Conn)
        → S.Others (committed D c) d
        → IsUndone D laws S store_laws d t
        → Stopped D S sch v m c t
    Stopped-IsUndone d t o (e, back) = within (subst (S.Others (committed D c)) (sym e) o) back

    -- Behind the COMMIT, the foreign keys are enabled again.
    enable_again :
        (d : Db) (t : Conn)
        → S.Others (committed D c) d
        → S.version d ≡ pos v
        → (frames t ≡ []) × (db t ≡ migrated D S sch v m d)
        → RoundPost (when D S off (checked (S.pragma foreign_keys_on)) >> pure (pos v)) t
    unfolding RoundPost
    enable_again d t o version (closed, now) =
        Post-bind {P = λ _ t'. (frames t' ≡ []) × (db t' ≡ migrated D S sch v m d)}
          (when D S off (checked (S.pragma foreign_keys_on))) (λ _. pure (pos v)) t
          (when-Post D laws S store_laws off _ t
            (λ _.
              let (f, e) = (store_laws.foreign_keys_set t).1 in
              checked-Post (S.pragma foreign_keys_on) t (λ _. (f ∙ closed, e ∙ now))
                (λ _ _. behind d o version (f ∙ closed) (e ∙ now)))
            (λ _. (closed, now)))
          (λ _ t' (f, e). returns (applied d o version f e))

    apply_at-Post :
        (d : Db) (a : ℤ) (t : Conn)
        → S.Others (committed D c) d
        → a ≡ S.version d
        → IsInside D S d d t
        → RoundPost (apply_at D S sch off v m a) t
    unfolding RoundPost apply_at
    apply_at-Post d a t o e inside = elim (Bool-cases (is_nat a v)) [
      | inl same ↦ rw same (
          Post-bind (apply D S sch v m)
            (λ _. when D S off (checked (S.pragma foreign_keys_on)) >> pure (pos v)) t
            (Post-weaken (λ _ _ p. p) (λ _ t' x. Stopped-IsUndone d t' o x)
              (apply-Post D laws S store_laws sch v m d t inside))
            (λ _ t' p. enable_again d t' o (sym e ∙ is_nat-eq a v same) p))
      | inr other ↦ rw other (
          let back =
            committed-rolled_back D laws S store_laws t
            ∙ IsInside-committed D laws S store_laws d d t inside in
          returns (
            overtaken (subst (S.Others (committed D c)) (sym back) o) (ap S.version back ∙ sym e)
              (λ x. cc (is_nat_refl v, ap (λ z. is_nat z v) x, other))
              (rolled_back-IsClosed D laws S store_laws t)))
    ]

    query-Post :
        (d : Db) (t : Conn)
        → S.Others (committed D c) d
        → IsInside D S d d t
        → RoundPost (rolling_back D S (S.query user_version) >>= apply_at D S sch off v m) t
    unfolding RoundPost
    query-Post d t o (f, e) =
        Post-bind {P = λ a t'. (a ≡ S.version d) × IsInside D S d d t'}
          (rolling_back D S (S.query user_version)) (apply_at D S sch off v m) t
          (Post-weaken (λ _ _ p. p) (λ _ t' x. Stopped-IsUndone d t' o x)
            (rolling_back-Post D laws S store_laws d (
              called-Post (S.query user_version) t
                (λ a h.
                  let (f', e') = store_laws.answered user_version t a h in
                  (store_laws.version_answered t a h ∙ ap S.version e, (f' ∙ f, e' ∙ e)))
                (λ x h.
                  committed-Refused D laws S store_laws t _
                    (store_laws.not_answered user_version t x h)
                  ∙ IsInside-committed D laws S store_laws d d t (f, e)))))
          (λ a t' (h, inside). apply_at-Post d a t' o h inside)

    begin-Post :
        (t : Conn)
        → Unchanged D c t
        → RoundPost
            (step_and_reset D S (begin immediate)
              >> (rolling_back D S (S.query user_version) >>= apply_at D S sch off v m))
            t
    unfolding RoundPost
    begin-Post t same =
        Post-bind {P = λ _ t'. (d : Db) × S.Others (committed D c) d × IsInside D S d d t'}
          (step_and_reset D S (begin immediate))
          (λ _. rolling_back D S (S.query user_version) >>= apply_at D S sch off v m) t
          (step_and_reset-Post D laws S store_laws (begin immediate) t
            (λ h t' (f, e).
              let (none_open, now_open) = laws.begun immediate t h in
              (
                db (execute (begin immediate) t).1,
                subst (λ x. S.Others x (db (execute (begin immediate) t).1))
                    (sym (ap (λ fs. base D fs (db t)) none_open)
                      ∙ committed-Unchanged D laws S store_laws c t same)
                    (store_laws.others_at_begin immediate t h),
                (f ∙ now_open, e),
              ))
            (λ x h. before (
              Unchanged-Refused D laws S store_laws c t _ same
                (laws.failed (begin immediate) t x h))))
          (λ _ t' (d, o, inside). query-Post d t' o inside)

  -- A round at a version commits the scripts of its migration as a whole, in a transaction that
  -- found contents of that version, and only then goes on as at that version. If it found another
  -- version, it commits nothing and takes that version over; if it returns an error, it has
  -- committed nothing, or all of the scripts. It leaves no transaction open, unless its ROLLBACK
  -- fails or one was open before.
  pub round-atomic :
      (sch : Schema) (fks : Bool) (v : ℕ) (m : String) (c : Conn)
      → Post (Advanced D S sch v m c) (λ _. Stopped D S sch v m c) (round D S sch fks v m c)
  unfolding round RoundPost
  round-atomic sch fks v m c =
      Post-bind (when D S off (checked (S.pragma foreign_keys_off)))
        (λ _.
          step_and_reset D S (begin immediate)
          >> (rolling_back D S (S.query user_version) >>= apply_at D S sch off v m))
        c
        (when-Post D laws S store_laws {Q = λ _ t. Unchanged D c t} off _ c
          (λ _.
            let same = (store_laws.foreign_keys_set c).0 in
            checked-Post (S.pragma foreign_keys_off) c (λ _. same) (λ _ _. before (inl same)))
          (λ _. (refl, refl)))
        (λ _ t same. begin-Post sch off v m c t same)
    where
      off : Bool
      off = fks && asked_to_disable (get_elem? sch.migration_options v)
