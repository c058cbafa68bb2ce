-- ===== src/Sqlitex/Pool/Closing.antt =====
-- Close comes to an end.
use go_sqlite.Base.{
  ◌≡◌, refl, ap, ℕ, zero, suc, ◌+◌, Bool, Option, none, some, List, [], ◌∷◌, length, arith,
}
use go_sqlite.Sqlitex.Pool.{Pool, receive, receive_from}
use go_sqlite.Sqlitex.Pool.System.{System, Step, Reach, here, next, close_receives}
use go_sqlite.Sqlitex.Pool.Moves.{Inv, IsClosing, begun, not_begun}
use go_sqlite.Sqlitex.Pool.Invariant.{Step-Inv, Reach-Inv}

-- No goroutine has a connection.
pub record AllReturned (s : System) : Type 0 where
  pub none_preparing : s.preparing ≡ []
  pub none_leased : s.leased ≡ []
  pub none_returning : s.returning ≡ []

-- Close has received and closed every connection.
pub record IsShut (s : System) : Type 0 where
  pub none_left : s.closing ≡ some 0
  pub all_shut : length s.shut ≡ length s.pool.all
  pub channel_empty : s.pool.free ≡ []

then_reach : {s t u : System} → Step s t → Reach t u → Reach s u
then_reach a here = next here a
then_reach a (next r b) = next (then_reach a r) b

left_in_channel :
    (s : System) (k : ℕ)
    → Inv s
    → AllReturned s
    → s.closing ≡ some k
    → (length s.pool.free ≡ k) × (length s.shut + k ≡ length s.pool.all)
left_in_channel s k v r e =
    let n : length s.shut + k ≡ length s.pool.all = by_count v.closing_counts e in
    (
      omega (
        arith,
        n,
        v.all_somewhere,
        ap length r.none_preparing,
        ap length r.none_leased,
        ap length r.none_returning,
      ),
      n,
    )
  where
    by_count :
        {all shut : List ℕ} {left : Option ℕ} {closed : Bool}
        → IsClosing all left closed shut
        → left ≡ some k
        → length shut + k ≡ length all
    by_count not_begun q = cc
    by_count (begun {k = j} n) q = let j_is : j ≡ k = cc (q) in omega (arith, n, j_is)

receives :
    (p : Pool) (c : ℕ) (cs : List ℕ)
    → p.free ≡ c ∷ cs
    → receive p ≡ some (c, record p { free = cs })
unfolding receive
receives p c cs f = ap (receive_from p) f

first_one : (xs : List ℕ) (k : ℕ) → length xs ≡ suc k → (c : ℕ) × (cs : List ℕ) × (xs ≡ c ∷ cs)
first_one [] k e = absurd (omega (arith, e))
first_one (x ∷ xs) k e = (x, xs, refl)

empty_one : (xs : List ℕ) → length xs ≡ 0 → xs ≡ []
empty_one [] e = refl
empty_one (x ∷ xs) e = absurd (omega (arith, e))

shuts :
    (k : ℕ) (s : System)
    → Inv s
    → AllReturned s
    → s.closing ≡ some k
    → (t : System) × Reach s t × IsShut t
shuts zero s v r e =
    let (free_left, shut_so_far) = left_in_channel s 0 v r e in
    (
      s,
      here,
      record {
        none_left = e;
        all_shut = omega (arith, shut_so_far);
        channel_empty = empty_one s.pool.free free_left;
      },
    )
shuts (suc k) s v r e =
    let (free_left, shut_so_far) = left_in_channel s (suc k) v r e in
    let (c, cs, f) = first_one s.pool.free k free_left in
    let step = close_receives c k e (receives s.pool c cs f) none in
    let (t, reach, done) =
      shuts k _ (Step-Inv step v)
        (record {
          none_preparing = r.none_preparing;
          none_leased = r.none_leased;
          none_returning = r.none_returning;
        })
        refl in
    (t, then_reach step reach, done)

-- Once Close has begun and no goroutine has a connection, there are steps behind which Close has closed
-- every connection of the pool.
pub close-IsShut :
    {s t : System} (k : ℕ)
    → Inv s
    → Reach s t
    → t.closing ≡ some k
    → AllReturned t
    → (u : System) × Reach t u × IsShut u
close-IsShut {t = t} k v r e back = shuts k t (Reach-Inv r v) back e
