-- ===== src/Sqlitex/Pool/Opening.antt =====
-- What NewPool makes.
use go_sqlite.Base.{
  ◌≡◌, refl, sym, ap, ◌∙◌, subst, ℕ, zero, suc, ◌+◌, ◌≤◌, ◌<◌, Bool, false, List, [], ◌∷◌, length,
  arith, ◌⊎◌, inl, inr,
}
use go_sqlite.Errors.{Error, Result, ok, err, Result-cases}
use go_sqlite.Sqlitex.Pool.{Pool, count, pool_size, empty_pool, with_conn, open_conns, new_pool}
use go_sqlite.Sqlitex.Pool.Counts.{
  count-append, count-cons, length-append_one, same_or_not, count_self,
}
use go_sqlite.Sqlitex.Pool.System.{fresh}
use go_sqlite.Sqlitex.Pool.Moves.{Inv, not_begun}

zero_or_not : (m : ℕ) → (m ≡ 0) ⊎ (0 < m)
zero_or_not m = omega arith

module _ (open_conn : ℕ → Result ℕ) (prepares : Bool) where
  -- OpenConn returns a new connection each time.
  abbrev pub OpensNew : Type 0
  OpensNew = (i j c : ℕ) → open_conn i ≡ ok c → open_conn j ≡ ok c → i ≡ j

  -- A pool of the connections that the first calls have returned, all of them free.
  pub record Opened (n i : ℕ) (p : Pool) : Type 0 where
    pub same : (c : ℕ) → count c p.free ≡ count c p.all
    pub distinct : (c : ℕ) → count c p.all ≤ 1
    pub size : length p.free ≡ i
    pub known : length p.all ≡ i
    pub source : (c : ℕ) → 0 < count c p.all → (j : ℕ) × (j < i) × (open_conn j ≡ ok c)
    pub rest : p ≡ record (empty_pool n prepares) { free = p.free; all = p.all }

  -- NewPool has opened all connections, or closes those that it has opened before a call that fails.
  pub data NewPoolEnd (n : ℕ) : Result Pool × List ℕ → Type 0 where
    all_opened : {p : Pool} → Opened n n p → NewPoolEnd n (ok p, [])
    open_failed :
        {p : Pool} {e : Error} {i : ℕ}
        → i < n
        → open_conn i ≡ err e
        → Opened n i p
        → NewPoolEnd n (err e, p.free)

  module _ (fresh_ones : OpensNew) where
    with_conn-Opened :
        (n i c : ℕ) (p : Pool)
        → open_conn i ≡ ok c
        → Opened n i p
        → Opened n (suc i) (with_conn c p)
    with_conn-Opened n i c p e v = record {
      same = λ d. omega (arith, v.same d, count-append d p.free c, count-cons d c p.all);
      distinct = λ d. elim (same_or_not c d) [
        | inl q ↦
            subst (λ d. count d (c ∷ p.all) ≤ 1) q
              (omega (arith, new, count-cons c c p.all, count_self c))
        | inr other ↦ omega (arith, other, v.distinct d, count-cons d c p.all)
      ];
      size = length-append_one p.free c ∙ ap suc v.size;
      known = ap suc v.known;
      source = λ d there. elim (same_or_not c d) [
        | inl q ↦ (i, omega arith, e ∙ ap ok q)
        | inr other ↦
            let (j, lt, o) = v.source d (omega (arith, there, other, count-cons d c p.all)) in
            (j, omega (arith, lt), o)
      ];
      rest = ap (λ q. with_conn c (record q { free = p.free; all = p.all })) v.rest;
    }
      where
        new : count c p.all ≡ 0
        new = elim (zero_or_not (count c p.all)) [
          | inl z ↦ z
          | inr there ↦
              let (j, lt, o) = v.source c there in absurd (omega (arith, lt, fresh_ones i j c e o))
        ]

    open_conns-NewPoolEnd :
        (n i k : ℕ) (p : Pool)
        → i + k ≡ n
        → Opened n i p
        → NewPoolEnd n (open_conns open_conn i k p)
    unfolding open_conns
    open_conns-NewPoolEnd n i zero p e v =
        let n_is : i ≡ n = omega (arith, e) in all_opened (subst (λ m. Opened n m p) n_is v)
    open_conns-NewPoolEnd n i (suc k) p e v = elim (Result-cases (open_conn i)) [
      | inl (c, q) ↦ rw q (
          open_conns-NewPoolEnd n (suc i) k (with_conn c p) (omega (arith, e))
            (with_conn-Opened n i c p q v))
      | inr (x, q) ↦ rw q (open_failed (omega (arith, e)) q v)
    ]

    at_start : (n : ℕ) → Opened n 0 (empty_pool n prepares)
    at_start n = record {
      same = λ c. refl;
      distinct = λ c. omega arith;
      size = refl;
      known = refl;
      source = λ c there. absurd (omega arith);
      rest = refl;
    }

    -- NewPool on a file opens its connections, 10 where the size is below 1, into the channel; where a call
    -- fails it returns that error, and closes the connections that it has opened before. Condition: OpenConn
    -- returns a new connection each time.
    pub new_pool-NewPoolEnd :
        (size : ℕ) → NewPoolEnd (pool_size size) (new_pool false size prepares open_conn)
    unfolding new_pool
    new_pool-NewPoolEnd size =
        open_conns-NewPoolEnd (pool_size size) 0 (pool_size size) _ (omega arith)
          (at_start (pool_size size))

-- A new pool meets the invariant.
pub Opened-Inv :
    (open_conn : ℕ → Result ℕ) (prepares : Bool) (n : ℕ) (p : Pool)
    → Opened open_conn prepares n n p
    → Inv (fresh p)
Opened-Inv open_conn prepares n p v =
    subst (λ q. Inv (fresh q)) (sym v.rest)
      (record {
        one_place = λ c. omega (arith, v.same c);
        distinct = v.distinct;
        all_somewhere = omega (arith, v.size, v.known);
        room_for_all = omega (arith, v.known);
        unprepared = λ c. omega arith;
        once = λ c. refl;
        ready = λ _ c. omega arith;
        closing_counts = not_begun;
      })
