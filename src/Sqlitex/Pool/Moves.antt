-- ===== src/Sqlitex/Pool/Moves.antt =====
-- What holds of a pool at all times, and that it holds behind each step.
use go_sqlite.Base.{
  ◌≡◌, refl, ap, ◌∙◌, subst, ℕ, suc, ◌+◌, ◌≤◌, ◌<◌, Bool, true, false, Option, none, some,
  Option-cases, List, [], ◌∷◌, length, Bool-cases, inl, inr, arith,
}
use go_sqlite.Errors.{Error}
use go_sqlite.Sqlitex.Pool.{
  Pool, count, member, remove, receive, receive_from, send, register, needs_prepare, mark_inited,
  release, released, put, begin_close,
}
use go_sqlite.Sqlitex.Pool.Counts.{
  count-append, count-cons, count-remove, length-remove, length-append_one, count_self, same_or_not,
  not_yet, already,
}
use go_sqlite.Sqlitex.Pool.System.{System, taken, prepared}

-- How often a connection is somewhere, and the number of connections that are somewhere.
abbrev pub places : System → ℕ → ℕ
places s c =
    count c s.pool.free
    + count c s.preparing
    + count c s.leased
    + count c s.returning
    + count c s.shut

abbrev pub population : System → ℕ
population s =
    length s.pool.free + length s.preparing + length s.leased + length s.returning + length s.shut

-- Close has counted all connections, and has closed those that it has received.
pub data IsClosing (all : List ℕ) : Option ℕ → Bool → List ℕ → Type 0 where
  not_begun : IsClosing all none false []
  begun : {k : ℕ} {shut : List ℕ} → length shut + k ≡ length all → IsClosing all (some k) true shut

pub record Inv (s : System) : Type 0 where
  -- Each connection of the pool is in one place, and no other connection is anywhere.
  pub one_place : (c : ℕ) → places s c ≡ count c s.pool.all
  pub distinct : (c : ℕ) → count c s.pool.all ≤ 1
  pub all_somewhere : population s ≡ length s.pool.all
  pub room_for_all : length s.pool.all ≤ s.pool.capacity
  -- A connection is prepared with success at most once, and before it is leased.
  pub unprepared : (c : ℕ) → count c s.preparing + count c s.pool.inited ≤ 1
  pub once : (c : ℕ) → count c s.prepared_ok ≡ count c s.pool.inited
  pub ready : s.pool.prepares ≡ true → (c : ℕ) → count c s.leased ≤ count c s.pool.inited
  pub closing_counts : IsClosing s.pool.all s.closing s.pool.closed s.shut

pub received :
    (p q : Pool) (c : ℕ)
    → receive p ≡ some (c, q)
    → (cs : List ℕ) × (p.free ≡ c ∷ cs) × (record p { free = cs } ≡ q)
unfolding receive
received p q c e = by_free p.free refl e
  where
    by_free :
        (xs : List ℕ)
        → p.free ≡ xs
        → receive_from p xs ≡ some (c, q)
        → (cs : List ℕ) × (p.free ≡ c ∷ cs) × (record p { free = cs } ≡ q)
    by_free [] f e = cc
    by_free (x ∷ xs) f e = let x_is : x ≡ c = cc (e) in (xs, f ∙ ap (λ y. y ∷ xs) x_is, cc (e))

-- The keys of `inited` and what has been prepared, behind Take.
module _ (s : System) (v : Inv s) (c : ℕ) (cs : List ℕ) (f : s.pool.free ≡ c ∷ cs) where
  in_free : (d : ℕ) → count d s.pool.free ≡ count d cs + count d (c ∷ [])
  in_free d = ap (count d) f ∙ count-cons d c cs

  -- A connection in the channel is with no goroutine.
  not_elsewhere : count c s.preparing + count c s.leased + count c s.returning + count c s.shut ≡ 0
  not_elsewhere = omega (arith, v.one_place c, v.distinct c, in_free c, count_self c)

  pub taken-Inv : Inv (taken c (record s { pool = record s.pool { free = cs } }))
  unfolding taken register
  taken-Inv = elim (Bool-cases (needs_prepare c s.pool)) [
    | inl needed ↦ rw needed (record {
      one_place = λ d. omega (arith, v.one_place d, in_free d, count-cons d c s.preparing);
      distinct = v.distinct;
      all_somewhere = omega (arith, v.all_somewhere, ap length f);
      room_for_all = v.room_for_all;
      unprepared = λ d. elim (same_or_not c d) [
        | inl same ↦
            subst (λ d. count d (c ∷ s.preparing) + count d s.pool.inited ≤ 1) same
              (omega (
                arith,
                not_elsewhere,
                not_yet s.pool.prepares (count c s.pool.inited) needed,
                count-cons c c s.preparing,
                count_self c,
              ))
        | inr other ↦ omega (arith, other, count-cons d c s.preparing, v.unprepared d)
      ];
      once = v.once;
      ready = v.ready;
      closing_counts = v.closing_counts;
    })
    | inr went ↦ rw went (record {
      one_place = λ d. omega (arith, v.one_place d, in_free d, count-cons d c s.leased);
      distinct = v.distinct;
      all_somewhere = omega (arith, v.all_somewhere, ap length f);
      room_for_all = v.room_for_all;
      unprepared = v.unprepared;
      once = v.once;
      ready = λ prepares d. elim (same_or_not c d) [
        | inl same ↦
            subst (λ d. count d (c ∷ s.leased) ≤ count d s.pool.inited) same
              (omega (
                arith,
                not_elsewhere,
                already s.pool.prepares (count c s.pool.inited) went prepares,
                count-cons c c s.leased,
                count_self c,
              ))
        | inr other ↦ omega (arith, other, count-cons d c s.leased, v.ready prepares d)
      ];
      closing_counts = v.closing_counts;
    })
  ]

module _ (s : System) (v : Inv s) (c : ℕ) where
  pub prepared-Inv : 0 < count c s.preparing → Inv (prepared c s)
  unfolding prepared mark_inited
  prepared-Inv there =
      let fresh : count c s.pool.inited ≡ 0 = omega (arith, v.unprepared c, there) in
      rw (no_member fresh) (record {
        one_place = λ d.
            omega
              (arith, v.one_place d, count-remove d c s.preparing there, count-cons d c s.leased);
        distinct = v.distinct;
        all_somewhere = omega (arith, v.all_somewhere, length-remove c s.preparing there);
        room_for_all = v.room_for_all;
        unprepared = λ d. omega (
          arith,
          v.unprepared d,
          count-remove d c s.preparing there,
          count-cons d c s.pool.inited,
        );
        once = λ d.
            omega (arith, v.once d, count-cons d c s.prepared_ok, count-cons d c s.pool.inited);
        ready = λ prepares d.
            omega
              (arith, v.ready prepares d, count-cons d c s.leased, count-cons d c s.pool.inited);
        closing_counts = v.closing_counts;
      })
    where
      no_member : count c s.pool.inited ≡ 0 → member c s.pool.inited ≡ false
      no_member e = ground arith

  -- put leaves everything but the functions that cancel.
  pub released_by :
      (p : Pool)
      → release c s.pool ≡ some p
      → record s.pool { cancels = remove c s.pool.cancels } ≡ p
  unfolding release
  released_by p e = elim (Bool-cases (member c s.pool.all)) [
    | inl known ↦ cc (rw known at e)
    | inr foreign ↦ cc (rw foreign at e)
  ]

  pub put_by : (p : Pool) → put false (some c) s.pool ≡ released c p → release c s.pool ≡ some p
  unfolding put
  put_by p e = elim (Option-cases (release c s.pool)) [
    | inl foreign ↦ cc (rw foreign at e)
    | inr (q, r) ↦ cc (rw r at e, r)
  ]

  pub failed-Inv :
      0 < count c s.preparing
      → Inv (record s {
        pool = record s.pool { cancels = remove c s.pool.cancels };
        preparing = remove c s.preparing;
        returning = c ∷ s.returning;
      })
  failed-Inv there = record {
    one_place = λ d.
        omega
          (arith, v.one_place d, count-remove d c s.preparing there, count-cons d c s.returning);
    distinct = v.distinct;
    all_somewhere = omega (arith, v.all_somewhere, length-remove c s.preparing there);
    room_for_all = v.room_for_all;
    unprepared = λ d. omega (arith, v.unprepared d, count-remove d c s.preparing there);
    once = v.once;
    ready = v.ready;
    closing_counts = v.closing_counts;
  }

  pub put_back-Inv :
      0 < count c s.leased
      → Inv (record s {
        pool = record s.pool { cancels = remove c s.pool.cancels };
        leased = remove c s.leased;
        returning = c ∷ s.returning;
      })
  put_back-Inv there = record {
    one_place = λ d.
        omega (arith, v.one_place d, count-remove d c s.leased there, count-cons d c s.returning);
    distinct = v.distinct;
    all_somewhere = omega (arith, v.all_somewhere, length-remove c s.leased there);
    room_for_all = v.room_for_all;
    unprepared = v.unprepared;
    once = v.once;
    ready = λ prepares d. omega (arith, v.ready prepares d, count-remove d c s.leased there);
    closing_counts = v.closing_counts;
  }

  pub sent-Inv :
      0 < count c s.returning
      → Inv (record s { pool = send c s.pool; returning = remove c s.returning })
  unfolding send
  sent-Inv there = record {
    one_place = λ d.
        omega
          (arith, v.one_place d, count-remove d c s.returning there, count-append d s.pool.free c);
    distinct = v.distinct;
    all_somewhere = omega (
      arith,
      v.all_somewhere,
      length-remove c s.returning there,
      length-append_one s.pool.free c,
    );
    room_for_all = v.room_for_all;
    unprepared = v.unprepared;
    once = v.once;
    ready = v.ready;
    closing_counts = v.closing_counts;
  }

  pub close_received-Inv :
      (cs : List ℕ) (k : ℕ) (e : Option Error)
      → s.pool.free ≡ c ∷ cs
      → s.closing ≡ some (suc k)
      → Inv (record s {
        pool = record s.pool { free = cs };
        shut = c ∷ s.shut;
        closing = some k;
        close_error = e;
      })
  close_received-Inv cs k e f left = record {
    one_place = λ d. omega (arith, v.one_place d, in_free s v c cs f d, count-cons d c s.shut);
    distinct = v.distinct;
    all_somewhere = omega (arith, v.all_somewhere, ap length f);
    room_for_all = v.room_for_all;
    unprepared = v.unprepared;
    once = v.once;
    ready = v.ready;
    closing_counts = one_less v.closing_counts left;
  }
    where
      one_less :
          {all shut : List ℕ} {left : Option ℕ} {closed : Bool}
          → IsClosing all left closed shut
          → left ≡ some (suc k)
          → IsClosing all (some k) closed (c ∷ shut)
      one_less not_begun q = cc
      one_less (begun {k = j} n) q = let j_is : j ≡ suc k = cc (q) in begun (omega (arith, n, j_is))

pub close_begun :
    (p q : Pool) (n : ℕ)
    → begin_close p ≡ some (n, q)
    → (p.closed ≡ false) × (n ≡ length p.all) × (record p { closed = true; cancels = [] } ≡ q)
unfolding begin_close
close_begun p q n e = elim (Bool-cases p.closed) [
  | inl twice ↦ cc (rw twice at e)
  | inr first ↦
      let e' : some (length p.all, record p { closed = true; cancels = [] }) ≡ some (n, q) =
        rw first at e in
      (first, cc (e'), cc (e'))
]

pub close_begins-Inv :
    (s : System)
    → Inv s
    → s.pool.closed ≡ false
    → Inv (record s {
      pool = record s.pool { closed = true; cancels = [] };
      closing = some (length s.pool.all);
    })
close_begins-Inv s v open_yet = record {
  one_place = v.one_place;
  distinct = v.distinct;
  all_somewhere = v.all_somewhere;
  room_for_all = v.room_for_all;
  unprepared = v.unprepared;
  once = v.once;
  ready = v.ready;
  closing_counts = all_left v.closing_counts open_yet;
}
  where
    all_left :
        {all shut : List ℕ} {left : Option ℕ} {closed : Bool}
        → IsClosing all left closed shut
        → closed ≡ false
        → IsClosing all (some (length all)) true shut
    all_left not_begun q = begun (omega arith)
    all_left (begun n) q = cc
