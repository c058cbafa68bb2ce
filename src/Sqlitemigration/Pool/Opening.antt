-- ===== src/Sqlitemigration/Pool/Opening.antt =====
-- A pool is opened behind a migration or not at all, and nothing is left open.
use go_sqlite.Base.{◌≡◌, ℕ}
use go_sqlite.Errors.{Error, err}
use go_sqlite.Sqlitemigration.Pool.{Pools, OpenResult}
use go_sqlite.Sqlitemigration.Pool.Ends.{PoolsLaws, Same, OpenEnd}

module _ (P : Pools) (laws : PoolsLaws P) where
  open P use {
    World, new_pool, take, put, close_pool, migrate, wait_retry, is_done, on_error, on_ready,
  }

  -- What an attempt leads to, where the pool cannot be opened in it.
  Again : ℕ → World → World → (World → OpenResult × World) → Type 0
  Again n w t rest =
      (e : Error)
      → (new_pool t).0 ≡ err e
      → Same P laws w (on_error e (new_pool t).1)
      → OpenEnd P laws n w (rest (on_error e (new_pool t).1))
