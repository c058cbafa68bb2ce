-- ===== src/Sqlitemigration/Migrate/Loop.antt =====
-- All rounds of migrateDB's loop: what they may commit, and that they end.
use Prim.Native.String.{String}
use go_sqlite.Base.{
  ◌≡◌, ◌≢◌, refl, sym, ap, ap₂, ◌∙◌, subst, ℕ, zero, suc, ◌<◌, ◌≤◌, ◌-◌, Bool, true, false, Option,
  none, some, length, get_elem?, get_elem?-some, get_elem?-none, arith,
}
use go_sqlite.Base.Int.{ℤ, pos, negsuc, succ, succ-pred}
use go_sqlite.Errors.{Result}
use go_sqlite.Sqlitex.Database.{Database, DatabaseLaws, base}
use go_sqlite.Run.{Post, returns, fails}
use go_sqlite.Sqlitemigration.Store.{Store, StoreLaws, alone, with_version, committed}
use go_sqlite.Sqlitemigration.Migrate.{
  Schema, Outcome, done, fails as fails_with, index_out_of_range, panics_with, repeats, round,
  next_round, at_index, loop,
}
use go_sqlite.Sqlitemigration.Migrate.Apply.{committed-Refused, migrated, with_repeatable}
use go_sqlite.Sqlitemigration.Migrate.Round.{
  Advanced, applied, overtaken, Stopped, before, within, behind, round-atomic,
}

module _ (D : Database) (S : Store D) (sch : Schema) where
  open D use {Conn, Db}

  -- What may become of the committed contents: other processes write, a migration is committed as a
  -- whole on contents of its version, and the application ID is set.
  pub data History (d : Db) : Db → Type 0 where
    unchanged : History d d
    others : {e f : Db} → History d e → S.Others e f → History d f
    migration :
        {e : Db} (v : ℕ) (m : String)
        → History d e
        → S.version e ≡ pos v
        → get_elem? sch.migrations v ≡ some m
        → History d (migrated D S sch v m e)
    identified : {e : Db} → History d e → History d (S.mark sch.app_id e)

  -- A version that is not below v, and no negative one.
  abbrev pub AtLeast : ℕ → ℤ → Type 0
  AtLeast v z = (n : ℕ) × (z ≡ pos n) × (v ≤ n)

  -- How a loop ends: with all migrations in the committed contents, or with an error.
  abbrev pub LoopEnd : Outcome → Conn → Type 0
  LoopEnd done c = AtLeast (length sch.migrations) (S.version (committed D c))
  LoopEnd (fails_with e) c = Unit {0}
  LoopEnd (index_out_of_range z) c = ⊥
  LoopEnd (panics_with p) c = ⊥

module _ (D : Database) (laws : DatabaseLaws D) (S : Store D) (store_laws : StoreLaws D S)
    (sch : Schema) where
  open D use {Conn, Db, db, frames}

  module _ (v : ℕ) (m : String) (c : Conn) (d : Db)
      (is_next : get_elem? sch.migrations v ≡ some m) where
    Advanced-History :
        {n : ℤ} {c' : Conn}
        → History D S sch d (committed D c)
        → Advanced D S sch v m c n c'
        → History D S sch d (committed D c')
    Advanced-History h (applied {c' = c'} e o version closed now) =
        subst (History D S sch d) (sym (ap₂ (base D) closed now))
          (migration v m (others h o) version is_next)
    Advanced-History h (overtaken o version other _) = others h o

    Stopped-History :
        {c' : Conn}
        → History D S sch d (committed D c)
        → Stopped D S sch v m c c'
        → History D S sch d (committed D c')
    Stopped-History h (before e) =
        subst (History D S sch d) (sym (committed-Refused D laws S store_laws c _ e)) h
    Stopped-History h (within o _) = others h o
    Stopped-History h (behind e o version closed now) =
        subst (History D S sch d) (sym (ap₂ (base D) closed now))
          (migration v m (others h o) version is_next)

  module _ (fks : Bool) (o : Outcome) (d : Db) (c' : Conn) where
    -- What is left to run preserves that the end is in the history.
    Preserving : (ℤ → Conn → Option (Outcome × Conn)) → Type 0
    Preserving rest =
        (v : ℤ) (t : Conn)
        → History D S sch d (committed D t)
        → rest v t ≡ some (o, c')
        → History D S sch d (committed D c')

    ended-History :
        {x : Outcome} {t : Conn}
        → History D S sch d (committed D t)
        → ◌≡◌ {A = Option (Outcome × Conn)} (some (x, t)) (some (o, c'))
        → History D S sch d (committed D c')
    ended-History {t = t} h e = subst (λ y. History D S sch d (committed D y)) (cc e) h

    next_round-History :
        {v : ℕ} {m : String} {t : Conn} (rest : ℤ → Conn → Option (Outcome × Conn))
        {r : Result ℤ × Conn}
        → get_elem? sch.migrations v ≡ some m
        → History D S sch d (committed D t)
        → Preserving rest
        → Post (Advanced D S sch v m t) (λ _. Stopped D S sch v m t) r
        → next_round D S rest r ≡ some (o, c')
        → History D S sch d (committed D c')
    unfolding Preserving
    next_round-History {v} {m} {t} rest is_next h k (returns {a = n} {s = u} a) e =
        k (succ n) u (Advanced-History v m t d is_next h a) e
    next_round-History {v} {m} {t} rest is_next h k (fails {s = u} x) e =
        ended-History (Stopped-History v m t d is_next h x) e

    loop-Preserving : (fuel : ℕ) → Preserving (loop D S sch fks fuel)
    unfolding loop Preserving
    loop-Preserving zero v t h e = cc
    loop-Preserving (suc fuel) (negsuc n) t h e = ended-History h e
    loop-Preserving (suc fuel) (pos v) t h e =
        by_index (loop-Preserving fuel) (get_elem? sch.migrations v) refl e
      where
        by_index :
            Preserving (loop D S sch fks fuel)
            → (x : Option String) → get_elem? sch.migrations v ≡ x
            → at_index D S (loop D S sch fks fuel) (round D S sch fks v) x t ≡ some (o, c')
            → History D S sch d (committed D c')
        by_index k none g e = ended-History h e
        by_index k (some m) g e =
            next_round-History (loop D S sch fks fuel) g h k
              (round-atomic D laws S store_laws sch fks v m t) e

  pub loop-History-from :
      (fks : Bool) (fuel : ℕ) (v : ℤ) (c : Conn) (o : Outcome) (c' : Conn) (d : Db)
      → History D S sch d (committed D c)
      → loop D S sch fks fuel v c ≡ some (o, c')
      → History D S sch d (committed D c')
  unfolding Preserving
  loop-History-from fks fuel v c o c' d h e = loop-Preserving fks o d c' fuel v c h e

  -- The loop, from any version and however long it runs, only commits whole migrations, each on
  -- contents of its version; everything else in the committed contents is other processes' work.
  pub loop-History :
      (fks : Bool) (fuel : ℕ) (v : ℤ) (c : Conn) (o : Outcome) (c' : Conn)
      → loop D S sch fks fuel v c ≡ some (o, c')
      → History D S sch (committed D c) (committed D c')
  loop-History fks fuel v c o c' e = loop-History-from fks fuel v c o c' (committed D c) unchanged e

module _ (D : Database) (laws : DatabaseLaws D) (S : Store D) (store_laws : StoreLaws D S)
    (sch : Schema)
    -- The repeatable script does not set the version.
    (keeps : (d : D.Db) → S.version (S.run (alone sch.repeatable_migration) d) ≡ S.version d) where
  open D use {Conn, Db, db, frames}

  pub version-migrated :
      (v : ℕ) (m : String) (d : Db) → S.version (migrated D S sch v m d) ≡ pos (suc v)
  version-migrated v m d = by_case (repeats sch v)
    where
      by_case :
          (b : Bool)
          → S.version
              (with_repeatable D S b sch.repeatable_migration (S.run (with_version m (suc v)) d))
            ≡ pos (suc v)
      by_case true = keeps _ ∙ store_laws.version_set m (suc v) d
      by_case false = store_laws.version_set m (suc v) d

module _ (D : Database) (laws : DatabaseLaws D) (S : Store D) (store_laws : StoreLaws D S)
    (sch : Schema)
    -- Other processes do not take migrations back, and the repeatable script does not set the version.
    (grows : (d e : D.Db) (n : ℕ)
      → S.Others d e
      → S.version d ≡ pos n
      → AtLeast D S sch n (S.version e))
    (keeps : (d : D.Db) → S.version (S.run (alone sch.repeatable_migration) d) ≡ S.version d) where
  open D use {Conn, Db, db, frames}

  above : (v n : ℕ) → v ≤ n → n ≢ v → v < n
  above v n h other = omega arith

  -- The loop goes on at a higher version, which the committed contents have reached.
  Progress : ℕ → ℤ → Conn → Type 0
  Progress v n c =
      (w : ℕ) × (succ n ≡ pos w) × (v < w) × AtLeast D S sch w (S.version (committed D c))

  Advanced-Progress :
      {v : ℕ} {m : String} {c c' : Conn} {n : ℤ}
      → AtLeast D S sch v (S.version (committed D c))
      → Advanced D S sch v m c n c'
      → Progress v n c'
  unfolding Progress
  Advanced-Progress {v} {m} known (applied d o version closed now) = (
    suc v,
    refl,
    ground arith,
    (
      suc v,
      ap S.version (ap₂ (base D) closed now) ∙ version-migrated D laws S store_laws sch keeps v m d,
      ground arith,
    ),
  )
  Advanced-Progress {v} (k, is_k, low) (overtaken {a} {c'} o version other _) =
      let (n, is_n, high) = grows _ _ k o is_k in
      (
        n,
        succ-pred a ∙ sym version ∙ is_n,
        above v n (omega (arith, low, high)) (λ x. other (sym version ∙ is_n ∙ ap pos x)),
        (n, is_n, ground arith),
      )

  Ending : Option (Outcome × Conn) → Type 0
  Ending r = (o : Outcome) × (c' : Conn) × (r ≡ some (o, c')) × LoopEnd D S sch o c'

  -- Enough fuel for a loop that is at version v: one more than the migrations that are left.
  Ends : ℕ → (ℤ → Conn → Option (Outcome × Conn)) → Type 0
  Ends fuel rest =
      (v : ℕ) (c : Conn)
      → length sch.migrations - v < fuel
      → AtLeast D S sch v (S.version (committed D c))
      → Ending (rest (pos v) c)

  next_round-Ending :
      {fuel v : ℕ} {m : String} {c : Conn} (rest : ℤ → Conn → Option (Outcome × Conn))
      {r : Result ℤ × Conn}
      → v < length sch.migrations
      → length sch.migrations - v < suc fuel
      → AtLeast D S sch v (S.version (committed D c))
      → Ends fuel rest
      → Post (Advanced D S sch v m c) (λ _. Stopped D S sch v m c) r
      → Ending (next_round D S rest r)
  unfolding Ending Ends Progress
  next_round-Ending rest lt enough known k (fails {e = e} {s = c'} x) = (fails_with e, c', refl, tt)
  next_round-Ending {fuel} {v} rest lt enough known k (returns {a = n} {s = c'} a) =
      let (w, is_w, up, reached) = Advanced-Progress known a in
      subst (λ z. Ending (rest z c')) (sym is_w)
        (k w c' (fewer fuel v w (length sch.migrations) lt enough up) reached)
    where
      fewer : (fuel v w l : ℕ) → v < l → l - v < suc fuel → v < w → l - w < fuel
      fewer fuel v w l a b c = omega arith

  loop-Ends : (fks : Bool) (fuel : ℕ) → Ends fuel (loop D S sch fks fuel)
  unfolding loop Ends Ending
  loop-Ends fks zero v c enough known = absurd (omega arith)
  loop-Ends fks (suc fuel) v c enough known =
      by_index (loop-Ends fks fuel) (get_elem? sch.migrations v) refl
    where
      by_index :
          Ends fuel (loop D S sch fks fuel)
          → (x : Option String) → get_elem? sch.migrations v ≡ x
          → Ending (at_index D S (loop D S sch fks fuel) (round D S sch fks v) x c)
      by_index k none g =
          let (n, is_n, low) = known in
          let past = get_elem?-none sch.migrations v g in
          (done, c, refl, (n, is_n, omega (arith, low, past)))
      by_index k (some m) g =
          next_round-Ending (loop D S sch fks fuel) (get_elem?-some sch.migrations v m g) enough
            known k (round-atomic D laws S store_laws sch fks v m c)

  -- With a fuel above the number of migrations left, the loop ends. It never indexes out of range;
  -- and where it ends without an error, the version of the committed contents is at least the number
  -- of migrations. Conditions: the committed contents have the loop's version or a higher one, other
  -- processes never lower a version, and the repeatable script does not set it.
  pub loop-ends :
      (fks : Bool) (fuel v : ℕ) (c : Conn)
      → length sch.migrations - v < fuel
      → AtLeast D S sch v (S.version (committed D c))
      → (o : Outcome) × (c' : Conn) × (loop D S sch fks fuel (pos v) c ≡ some (o, c'))
        × LoopEnd D S sch o c'
  unfolding Ends Ending
  loop-ends fks fuel v c enough known = loop-Ends fks fuel v c enough known
