-- ===== src/Sqlitemigration/Pool/Tests.antt =====
-- A world of open pools and connections that are taken, in which the first pools cannot be opened.
use go_sqlite.Base.{◌≡◌, refl, ℕ, zero, suc, true, false, none, List, [], ◌∷◌, ap}
use go_sqlite.Errors.{Error, message, Result, ok, err}
use go_sqlite.Sqlitemigration.Migrate.{done}
use go_sqlite.Sqlitemigration.Pool.{Pools, opened, open_again, open_pool}
use go_sqlite.Sqlitemigration.Pool.Ends.{PoolsLaws}

record Counted : Type 0 where
  failures : ℕ
  open_ones : List ℕ
  taken_ones : List ℕ

abbrev rest_of : List ℕ → List ℕ
rest_of [] = []
rest_of (x ∷ xs) = xs

abbrev next_pool : Counted → ℕ → Result ℕ × Counted
next_pool w zero = (ok 7, record w { open_ones = 7 ∷ w.open_ones })
next_pool w (suc n) = (err (message "unable to open"), record w { failures = n })

abbrev counted : Pools
counted = record {
  World = Counted;
  new_pool = λ w. next_pool w w.failures;
  take = λ p w. (ok 9, record w { taken_ones = 9 ∷ w.taken_ones });
  put = λ p c w. record w { taken_ones = rest_of w.taken_ones };
  close_pool = λ p w. (none, record w { open_ones = rest_of w.open_ones });
  migrate = λ c w. (done, w);
  wait_retry = λ w. (true, w);
  is_done = λ e. false;
  on_error = λ e w. w;
  on_ready = λ w. w;
}

next_ok :
    (w : Counted) (n p : ℕ)
    → (next_pool w n).0 ≡ ok p
    → ((next_pool w n).1.open_ones ≡ p ∷ w.open_ones)
      × ((next_pool w n).1.taken_ones ≡ w.taken_ones)
next_ok w zero p q = let e : 7 ≡ p = cc (q) in (ap (λ x. x ∷ w.open_ones) e, refl)
next_ok w (suc n) p q = cc (q)

next_err :
    (w : Counted) (n : ℕ) (e : Error)
    → (next_pool w n).0 ≡ err e
    → ((next_pool w n).1.open_ones ≡ w.open_ones) × ((next_pool w n).1.taken_ones ≡ w.taken_ones)
next_err w zero e q = cc (q)
next_err w (suc n) e q = (refl, refl)

abbrev counted_laws : PoolsLaws counted
counted_laws = record {
  pools = λ w. w.open_ones;
  taken = λ w. w.taken_ones;
  new_ok = λ w p q. next_ok w w.failures p q;
  new_err = λ w e q. next_err w w.failures e q;
  take_ok = λ p c w q. let e : 9 ≡ c = cc (q) in (refl, ap (λ x. x ∷ w.taken_ones) e);
  take_err = λ p e w q. cc (q);
  put_back = λ p c cs w q. (refl, ap rest_of q);
  closes = λ p ps w q. (ap rest_of q, refl);
  migrate_keeps = λ c w. (refl, refl);
  wait_keeps = λ w. (refl, refl);
  error_keeps = λ e w. (refl, refl);
  ready_keeps = λ w. (refl, refl);
}

abbrev two_failures : Counted
two_failures = record { failures = 2; open_ones = 3 ∷ []; taken_ones = [] }

opens_behind_failures :
    open_pool counted 3 two_failures
    ≡ (opened 7, record { failures = 0; open_ones = 7 ∷ 3 ∷ []; taken_ones = [] })
unfolding open_pool open_again
opens_behind_failures = refl
