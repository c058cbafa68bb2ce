-- ===== src/Sqlitemigration/Migrate/Alone.antt =====
-- migrateDB's loop where no other process writes: the contents it makes.
use Prim.Native.String.{String}
use go_sqlite.Base.{
  ◌≡◌, refl, sym, ap, ap₂, ◌∙◌, subst, ℕ, zero, suc, Bool, Option, none, some, List, [], ◌∷◌, drop,
  get_elem?, get_elem?-none, drop-length, drop-get_elem?,
}
use go_sqlite.Base.Int.{ℤ, pos, succ}
use go_sqlite.Errors.{Result}
use go_sqlite.Sqlitex.Database.{Database, DatabaseLaws, base}
use go_sqlite.Run.{Post, returns, fails}
use go_sqlite.Sqlitemigration.Store.{Store, StoreLaws, alone, committed}
use go_sqlite.Sqlitemigration.Migrate.{Schema, Outcome, done, next_round, at_index, loop, round}
use go_sqlite.Sqlitemigration.Migrate.Apply.{migrated}
use go_sqlite.Sqlitemigration.Migrate.Round.{Advanced, applied, overtaken, Stopped, round-atomic}
use go_sqlite.Sqlitemigration.Migrate.Loop.{version-migrated}

module _ (D : Database) (S : Store D) (sch : Schema) where
  -- The migrations from an index on, one after the other.
  abbrev pub upgraded : ℕ → List String → D.Db → D.Db
  upgraded v [] d = d
  upgraded v (m ∷ ms) d = upgraded (suc v) ms (migrated D S sch v m d)

module _ (D : Database) (laws : DatabaseLaws D) (S : Store D) (store_laws : StoreLaws D S)
    (sch : Schema)
    -- No other process writes, and the repeatable script does not set the version.
    (quiet : (d e : D.Db) → S.Others d e → e ≡ d)
    (keeps : (d : D.Db) → S.version (S.run (alone sch.repeatable_migration) d) ≡ S.version d) where
  open D use {Conn, Db, db, frames}

  -- The next round starts at the next version, on the migrated contents.
  Upgrading : ℕ → String → Conn → ℤ → Conn → Type 0
  Upgrading v m c n c' =
      (succ n ≡ pos (suc v))
      × (committed D c' ≡ migrated D S sch v m (committed D c))
      × (S.version (committed D c') ≡ pos (suc v))

  Advanced-Upgrading :
      {v : ℕ} {m : String} {c c' : Conn} {n : ℤ}
      → S.version (committed D c) ≡ pos v
      → Advanced D S sch v m c n c'
      → Upgrading v m c n c'
  unfolding Upgrading
  Advanced-Upgrading {v} {m} known (applied d o version closed now) =
      let made = ap₂ (base D) closed now ∙ ap (migrated D S sch v m) (quiet _ d o) in
      (
        refl,
        made,
        ap S.version (ap₂ (base D) closed now)
            ∙ version-migrated D laws S store_laws sch keeps v m d,
      )
  Advanced-Upgrading {v} known (overtaken o version other _) =
      absurd (other (sym version ∙ ap S.version (quiet _ _ o) ∙ known))

  Upgrades : (ℤ → Conn → Option (Outcome × Conn)) → Conn → Type 0
  Upgrades rest c' =
      (v : ℕ) (c : Conn)
      → S.version (committed D c) ≡ pos v
      → rest (pos v) c ≡ some (done, c')
      → committed D c' ≡ upgraded D S sch v (drop v sch.migrations) (committed D c)

  next_round-Upgrades :
      {v : ℕ} {m : String} {c c' : Conn} (rest : ℤ → Conn → Option (Outcome × Conn))
      {r : Result ℤ × Conn}
      → get_elem? sch.migrations v ≡ some m
      → S.version (committed D c) ≡ pos v
      → Upgrades rest c'
      → Post (Advanced D S sch v m c) (λ _. Stopped D S sch v m c) r
      → next_round D S rest r ≡ some (done, c')
      → committed D c' ≡ upgraded D S sch v (drop v sch.migrations) (committed D c)
  unfolding Upgrades Upgrading
  next_round-Upgrades rest g known k (fails x) e = cc
  next_round-Upgrades {v} {m} {c} {c'} rest g known k (returns {a = n} {s = t} a) e =
      let (is_n, made, version) = Advanced-Upgrading known a in
      k (suc v) t version (subst (λ z. rest z t ≡ some (done, c')) is_n e)
      ∙ ap (upgraded D S sch (suc v) (drop (suc v) sch.migrations)) made
      ∙ ap (λ ms. upgraded D S sch v ms (committed D c)) (sym (drop-get_elem? sch.migrations v m g))

  loop-Upgrades : (fks : Bool) (fuel : ℕ) (c' : Conn) → Upgrades (loop D S sch fks fuel) c'
  unfolding loop Upgrades
  loop-Upgrades fks zero c' v c known e = cc
  loop-Upgrades fks (suc fuel) c' v c known e =
      by_index (loop-Upgrades fks fuel c') (get_elem? sch.migrations v) refl e
    where
      by_index :
          Upgrades (loop D S sch fks fuel) c'
          → (x : Option String) → get_elem? sch.migrations v ≡ x
          → at_index D S (loop D S sch fks fuel) (round D S sch fks v) x c ≡ some (done, c')
          → committed D c' ≡ upgraded D S sch v (drop v sch.migrations) (committed D c)
      by_index k none g e =
          ap (committed D) (sym (cc e))
          ∙ ap (λ ms. upgraded D S sch v ms (committed D c))
              (sym (drop-length v sch.migrations (get_elem?-none sch.migrations v g)))
      by_index k (some m) g e =
          next_round-Upgrades (loop D S sch fks fuel) g known k
            (round-atomic D laws S store_laws sch fks v m c) e

  -- Where no other process writes and the repeatable script does not set the version: a loop that
  -- starts at the version of the committed contents and ends without an error has committed
  -- exactly the migrations from that version on, in their order.
  pub loop-upgraded :
      (fks : Bool) (fuel v : ℕ) (c c' : Conn)
      → S.version (committed D c) ≡ pos v
      → loop D S sch fks fuel (pos v) c ≡ some (done, c')
      → committed D c' ≡ upgraded D S sch v (drop v sch.migrations) (committed D c)
  unfolding Upgrades
  loop-upgraded fks fuel v c c' known e = loop-Upgrades fks fuel c' v c known e
