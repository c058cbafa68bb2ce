-- ===== src/Sqlitex/Pool/Invariant.antt =====
-- Every step keeps the invariant, and what follows for the goroutines.
use go_sqlite.Base.{
  ◌≡◌, ◌≢◌, sym, subst, ℕ, ◌<◌, true, false, some, [], ◌∷◌, length, arith, Bool-cases, inl, inr,
}
use go_sqlite.Sqlitex.Pool.{count, member, remove, release, put, panics_foreign, first_of}
use go_sqlite.Sqlitex.Pool.Counts.{length-remove}
use go_sqlite.Sqlitex.Pool.System.{
  System, taken, Step, take, prepare_succeeds, prepare_fails, put_back, sent, close_begins,
  close_receives, Reach, here, next,
}
use go_sqlite.Sqlitex.Pool.Moves.{
  Inv, received, taken-Inv, prepared-Inv, released_by, put_by, failed-Inv, put_back-Inv, sent-Inv,
  close_received-Inv, close_begun, close_begins-Inv,
}

pub Step-Inv : {s t : System} → Step s t → Inv s → Inv t
Step-Inv {s = s} (take c e) v =
    let (cs, f, q) = received s.pool _ c e in
    subst (λ p. Inv (taken c (record s { pool = p }))) q (taken-Inv s v c cs f)
Step-Inv {s = s} (prepare_succeeds c there) v = prepared-Inv s v c there
Step-Inv {s = s} (prepare_fails c there e) v =
    subst
      (λ p.
        Inv (record s { pool = p; preparing = remove c s.preparing; returning = c ∷ s.returning }))
      (released_by s v c _ e) (failed-Inv s v c there)
Step-Inv {s = s} (put_back c there e) v =
    subst
      (λ p. Inv (record s { pool = p; leased = remove c s.leased; returning = c ∷ s.returning }))
      (released_by s v c _ (put_by s v c _ e)) (put_back-Inv s v c there)
Step-Inv {s = s} (sent c there fits) v = sent-Inv s v c there
Step-Inv {s = s} (close_begins {n = m} e) v =
    let (open_yet, n, q) = close_begun s.pool _ _ e in
    subst (λ p. Inv (record s { pool = p; closing = some m })) q
      (subst
        (λ n.
          Inv (record s { pool = record s.pool { closed = true; cancels = [] }; closing = some n }))
        (sym n) (close_begins-Inv s v open_yet))
Step-Inv {s = s} (close_receives c k left e err) v =
    let (cs, f, q) = received s.pool _ c e in
    subst
      (λ p. Inv (record s {
        pool = p;
        shut = c ∷ s.shut;
        closing = some k;
        close_error = first_of s.close_error err;
      }))
      q (close_received-Inv s v c cs k (first_of s.close_error err) f left)

pub Reach-Inv : {s t : System} → Reach s t → Inv s → Inv t
Reach-Inv here v = v
Reach-Inv (next r step) v = Step-Inv step (Reach-Inv r v)

-- A connection that is leased, as seen by the goroutine that has it.
pub record IsExclusive (s : System) (c : ℕ) : Type 0 where
  pub leased_once : count c s.leased ≡ 1
  pub not_free : count c s.pool.free ≡ 0
  pub not_preparing : count c s.preparing ≡ 0
  pub not_shut : count c s.shut ≡ 0
  pub is_prepared : s.pool.prepares ≡ true → count c s.prepared_ok ≡ 1
  pub can_be_put : put false (some c) s.pool ≢ panics_foreign

known : (s : System) (c : ℕ) → 0 < count c s.pool.all → put false (some c) s.pool ≢ panics_foreign
unfolding put release
known s c lt e = elim (Bool-cases (member c s.pool.all)) [
  | inl there ↦ cc (rw there at e)
  | inr gone ↦ absurd (ground (arith, gone, lt))
]

-- In every state that is reached, a leased connection is leased to one goroutine only, is not in the
-- channel, being prepared or closed, has been prepared, once, if there is a function for it, and Put of it
-- does not panic as foreign.
pub leased-IsExclusive :
    {s t : System} (c : ℕ) → Inv s → Reach s t → 0 < count c t.leased → IsExclusive t c
leased-IsExclusive {t = t} c v r there =
    let w = Reach-Inv r v in
    record {
      leased_once = omega (arith, w.one_place c, w.distinct c, there);
      not_free = omega (arith, w.one_place c, w.distinct c, there);
      not_preparing = omega (arith, w.one_place c, w.distinct c, there);
      not_shut = omega (arith, w.one_place c, w.distinct c, there);
      is_prepared = λ p. omega (arith, w.ready p c, w.once c, w.unprepared c, there);
      can_be_put = known t c (omega (arith, w.one_place c, there));
    }

-- In every state that is reached, the channel has room for each connection that is on its way back, so
-- that Put does not block.
pub returning-fits :
    {s t : System} (c : ℕ)
    → Inv s
    → Reach s t
    → 0 < count c t.returning
    → length t.pool.free < t.pool.capacity
returning-fits {t = t} c v r there =
    let w = Reach-Inv r v in
    omega (arith, w.all_somewhere, w.room_for_all, length-remove c t.returning there)
