-- ===== src/Sqlitex/Pool/Tests.antt =====
-- A pool of two connections, a run of it, and the theorems at its states.
use go_sqlite.Base.{◌≡◌, refl, subst, ℕ, ◌<◌, true, false, some, List, [], ◌∷◌, arith}
use go_sqlite.Errors.{Result, ok}
use go_sqlite.Sqlitex.Pool.{
  Pool, count, receive, register, empty_pool, with_conn, open_conns, new_pool, put, release,
  begin_close,
}
use go_sqlite.Sqlitex.Pool.System.{
  System, taken, take, put_back, close_begins, Reach, here, next, fresh,
}
use go_sqlite.Sqlitex.Pool.Moves.{Inv}
use go_sqlite.Sqlitex.Pool.Invariant.{IsExclusive, leased-IsExclusive}
use go_sqlite.Sqlitex.Pool.Closing.{IsShut, close-IsShut}
use go_sqlite.Sqlitex.Pool.Opening.{
  OpensNew, Opened, NewPoolEnd, all_opened, open_failed, new_pool-NewPoolEnd, Opened-Inv,
}

abbrev numbered : ℕ → Result ℕ
numbered i = ok i

numbered-OpensNew : OpensNew numbered false
numbered-OpensNew i j c e f = cc (e, f)

abbrev two : Pool
two = with_conn 1 (with_conn 0 (empty_pool 2 false))

two_opened : new_pool false 2 false numbered ≡ (ok two, [])
unfolding new_pool open_conns
two_opened = refl

new_pool-NewPoolEnd_example : NewPoolEnd numbered false 2 (new_pool false 2 false numbered)
new_pool-NewPoolEnd_example = new_pool-NewPoolEnd numbered false numbered-OpensNew 2

pool_of :
    (n : ℕ) (p : Pool) {r : Result Pool × List ℕ}
    → NewPoolEnd numbered false n r
    → r ≡ (ok p, [])
    → Opened numbered false n n p
pool_of n p (all_opened {p = q} o) e =
    let q_is : q ≡ p = cc (e) in subst (Opened numbered false n n) q_is o
pool_of n p (open_failed lt f o) e = cc

two-Inv : Inv (fresh two)
two-Inv =
    Opened-Inv numbered false 2 two
      (pool_of 2 two (new_pool-NewPoolEnd numbered false numbered-OpensNew 2) two_opened)

-- Connection 0 is taken.
abbrev one_left : Pool
one_left = record two { free = 1 ∷ [] }

abbrev one_taken : System
one_taken = taken 0 (record (fresh two) { pool = one_left })

to_one_taken : Reach (fresh two) one_taken
unfolding receive
to_one_taken = next here (take 0 refl)

zero_leased : 0 < count 0 one_taken.leased
unfolding taken register
zero_leased = omega arith

leased-IsExclusive_example : IsExclusive one_taken 0
leased-IsExclusive_example = leased-IsExclusive 0 two-Inv to_one_taken zero_leased

-- It is on its way back.
abbrev going_back : System
going_back = record (fresh one_left) { returning = 0 ∷ [] }

to_going_back : Reach (fresh two) going_back
unfolding receive taken register put release
to_going_back = next (next here (take 0 refl)) (put_back 0 (omega arith) refl)

abbrev closing_two : System
closing_two = record (fresh (record two { closed = true })) { closing = some 2 }

to_closing_two : Reach (fresh two) closing_two
unfolding begin_close
to_closing_two = next here (close_begins refl)

close-IsShut_example : (u : System) × Reach closing_two u × IsShut u
close-IsShut_example =
    close-IsShut 2 two-Inv to_closing_two refl
      (record { none_preparing = refl; none_leased = refl; none_returning = refl })
