-- ===== src/Sqlitemigration/Pool/Ends.antt =====
-- What (*Pool).open of sqlitemigration ends with, and what its calls do to the open pools and taken connections.
use go_sqlite.Base.{◌≡◌, ◌≢◌, ℕ, suc, true, false, List, ◌∷◌}
use go_sqlite.Errors.{Error, ok, err}
use go_sqlite.Sqlitemigration.Migrate.{Outcome, done, fails}
use go_sqlite.Sqlitemigration.Pool.{
  Pools, OpenResult, opened, failed, crashed, out_of_fuel, closed_before,
}

-- The pools that are open and the connections that are taken, and what the calls do to them.
pub record PoolsLaws (P : Pools) : Type 0 where
  pub pools : P.World → List ℕ
  pub taken : P.World → List ℕ
  pub new_ok :
      (w : P.World) (p : ℕ)
      → (P.new_pool w).0 ≡ ok p
      → (pools (P.new_pool w).1 ≡ p ∷ pools w) × (taken (P.new_pool w).1 ≡ taken w)
  pub new_err :
      (w : P.World) (e : Error)
      → (P.new_pool w).0 ≡ err e
      → (pools (P.new_pool w).1 ≡ pools w) × (taken (P.new_pool w).1 ≡ taken w)
  pub take_ok :
      (p c : ℕ) (w : P.World)
      → (P.take p w).0 ≡ ok c
      → (pools (P.take p w).1 ≡ pools w) × (taken (P.take p w).1 ≡ c ∷ taken w)
  pub take_err :
      (p : ℕ) (e : Error) (w : P.World)
      → (P.take p w).0 ≡ err e
      → (pools (P.take p w).1 ≡ pools w) × (taken (P.take p w).1 ≡ taken w)
  pub put_back :
      (p c : ℕ) (cs : List ℕ) (w : P.World)
      → taken w ≡ c ∷ cs
      → (pools (P.put p c w) ≡ pools w) × (taken (P.put p c w) ≡ cs)
  pub closes :
      (p : ℕ) (ps : List ℕ) (w : P.World)
      → pools w ≡ p ∷ ps
      → (pools (P.close_pool p w).1 ≡ ps) × (taken (P.close_pool p w).1 ≡ taken w)
  pub migrate_keeps :
      (c : ℕ) (w : P.World)
      → (pools (P.migrate c w).1 ≡ pools w) × (taken (P.migrate c w).1 ≡ taken w)
  pub wait_keeps :
      (w : P.World) → (pools (P.wait_retry w).1 ≡ pools w) × (taken (P.wait_retry w).1 ≡ taken w)
  pub error_keeps :
      (e : Error) (w : P.World)
      → (pools (P.on_error e w) ≡ pools w) × (taken (P.on_error e w) ≡ taken w)
  pub ready_keeps :
      (w : P.World) → (pools (P.on_ready w) ≡ pools w) × (taken (P.on_ready w) ≡ taken w)

module _ (P : Pools) (laws : PoolsLaws P) where
  open P use {
    World, new_pool, take, put, close_pool, migrate, wait_retry, is_done, on_error, on_ready,
  }

  -- No pool more is open, and no connection more is taken.
  pub record Same (w w' : World) : Type 0 where
    pub same_pools : laws.pools w' ≡ laws.pools w
    pub same_taken : laws.taken w' ≡ laws.taken w

  pub record OneMore (p : ℕ) (w w' : World) : Type 0 where
    pub one_more : laws.pools w' ≡ p ∷ laws.pools w
    pub same_taken : laws.taken w' ≡ laws.taken w

  -- A pool was opened in a world, and a connection taken from it.
  pub record Taken (p c : ℕ) (t : World) : Type 0 where
    pub new_pool_ok : (new_pool t).0 ≡ ok p
    pub take_ok : (take p (new_pool t).1).0 ≡ ok c

  -- The world in which the migration runs on that connection.
  abbrev pub behind_take : ℕ → World → World
  behind_take p t = (take p (new_pool t).1).1

  -- Why open returns an error.
  pub data Reason : Error → Type 0 where
    not_asked : (t : World) → (wait_retry t).0 ≡ false → Reason closed_before
    take_stopped :
        {x : Error} {p : ℕ} (t : World)
        → (new_pool t).0 ≡ ok p
        → (take p (new_pool t).1).0 ≡ err x
        → is_done x ≡ true
        → Reason closed_before
    take_failed :
        {x : Error} {p : ℕ} (t : World)
        → (new_pool t).0 ≡ ok p
        → (take p (new_pool t).1).0 ≡ err x
        → is_done x ≡ false
        → Reason x
    migration_failed :
        {x : Error} {p c : ℕ} (t : World)
        → Taken p c t
        → (migrate c (behind_take p t)).0 ≡ fails x
        → Reason x

  -- A number of times, a retry was asked for and the pool could not be opened.
  pub data Retries : ℕ → World → World → Type 0 where
    no_retry : {w : World} → Retries 0 w w
    retry :
        {n : ℕ} {w w' : World} (e : Error)
        → (wait_retry w).0 ≡ true
        → (new_pool (wait_retry w).1).0 ≡ err e
        → Retries n (on_error e (new_pool (wait_retry w).1).1) w'
        → Retries (suc n) w w'

  -- What open ends with: one pool is open, and the migration has succeeded on a connection of it; or an
  -- error, and no pool more is open than before; in both cases no connection is left taken. Or migrateDB
  -- panics; or a retry was asked for as often as there is fuel, and no pool could be opened.
  pub data OpenEnd (fuel : ℕ) (w : World) : OpenResult × World → Type 0 where
    one_opened :
        {p c : ℕ} {w' : World} (t : World)
        → Taken p c t
        → (migrate c (behind_take p t)).0 ≡ done
        → OneMore p w w'
        → OpenEnd fuel w (opened p, w')
    none_opened : {e : Error} {w' : World} → Reason e → Same w w' → OpenEnd fuel w (failed e, w')
    panicked :
        {p c : ℕ} {o : Outcome} {w' : World} (t : World)
        → Taken p c t
        → (migrate c (behind_take p t)).0 ≡ o
        → o ≢ done
        → ((e : Error) → o ≢ fails e)
        → OpenEnd fuel w (crashed o, w')
    asked_again :
        {w' : World} {e : Error}
        → (new_pool w).0 ≡ err e
        → Retries fuel (on_error e (new_pool w).1) w'
        → OpenEnd fuel w (out_of_fuel, w')
