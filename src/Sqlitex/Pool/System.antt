-- ===== src/Sqlitex/Pool/System.antt =====
-- A pool with the goroutines that use it. A connection is with a goroutine that prepares it in Take, with
-- one that has taken it, with one that is putting it back, in the channel, or closed. The steps of the
-- goroutines come in any order. The application puts back what it has taken, once, and closes once.
use go_sqlite.Base.{
  ◌≡◌, ℕ, suc, ◌<◌, false, Option, none, some, List, [], ◌∷◌, length, if◌then◌else◌,
}
use go_sqlite.Errors.{Error}
use go_sqlite.Sqlitex.Pool.{
  Pool, count, remove, receive, send, register, needs_prepare, mark_inited, release, released, put,
  begin_close, first_of,
}

-- `prepared_ok` has the connections whose preparation has succeeded, once for each time. `closing` is the
-- number of connections that Close is still to receive, `close_error` what it is to return.
pub record System : Type 0 where
  pub pool : Pool
  pub preparing : List ℕ
  pub leased : List ℕ
  pub returning : List ℕ
  pub shut : List ℕ
  pub prepared_ok : List ℕ
  pub closing : Option ℕ
  pub close_error : Option Error

-- Take behind the receive, up to the preparation
unfoldable pub taken : ℕ → System → System
taken c s =
    let p = register c s.pool in
    if needs_prepare c p
    then record s { pool = p; preparing = c ∷ s.preparing }
    else record s { pool = p; leased = c ∷ s.leased }

-- Take, where p.prepare returns nil
unfoldable pub prepared : ℕ → System → System
prepared c s = record s {
  pool = mark_inited c s.pool;
  preparing = remove c s.preparing;
  leased = c ∷ s.leased;
  prepared_ok = c ∷ s.prepared_ok;
}

pub data Step (s : System) : System → Type 0 where
  take :
      (c : ℕ) {p : Pool} → receive s.pool ≡ some (c, p) → Step s (taken c (record s { pool = p }))
  prepare_succeeds : (c : ℕ) → 0 < count c s.preparing → Step s (prepared c s)
  prepare_fails :
      (c : ℕ) {p : Pool}
      → 0 < count c s.preparing
      → release c s.pool ≡ some p
      → Step s
          (record s { pool = p; preparing = remove c s.preparing; returning = c ∷ s.returning })
  put_back :
      (c : ℕ) {p : Pool}
      → 0 < count c s.leased
      → put false (some c) s.pool ≡ released c p
      → Step s (record s { pool = p; leased = remove c s.leased; returning = c ∷ s.returning })
  sent :
      (c : ℕ)
      → 0 < count c s.returning
      → length s.pool.free < s.pool.capacity
      → Step s (record s { pool = send c s.pool; returning = remove c s.returning })
  close_begins :
      {n : ℕ} {p : Pool}
      → begin_close s.pool ≡ some (n, p)
      → Step s (record s { pool = p; closing = some n })
  close_receives :
      (c k : ℕ) {p : Pool}
      → s.closing ≡ some (suc k)
      → receive s.pool ≡ some (c, p)
      → (e : Option Error)
      → Step s (record s {
        pool = p;
        shut = c ∷ s.shut;
        closing = some k;
        close_error = first_of s.close_error e;
      })

pub data Reach (s : System) : System → Type 0 where
  here : Reach s s
  next : {t u : System} → Reach s t → Step t u → Reach s u

abbrev pub fresh : Pool → System
fresh p = record {
  pool = p;
  preparing = [];
  leased = [];
  returning = [];
  shut = [];
  prepared_ok = [];
  closing = none;
  close_error = none;
}
