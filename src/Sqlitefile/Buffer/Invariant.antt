-- ===== src/Sqlitefile/Buffer/Invariant.antt =====
-- The invariant of a Buffer that has not failed, what it holds, and what is known of a buffer
-- after an operation of buffer.go.
use go_sqlite.Base.{ℕ, ◌≤◌, ◌<◌, ◌≡◌, refl, sym, subst, none, some, ◌++◌, length, drop}
use go_sqlite.Sqlitefile.Slice.{cap_of}
use go_sqlite.Sqlitefile.Blobs.{Bytes, Error, Result, ok, err, ok-injective, BlobStore}
use go_sqlite.Sqlitefile.Buffer.{
  Buffer, Op, on_conn, recording, sticky, continue, unless_failed, pass, ◌>>=◌,
}
use go_sqlite.Sqlitefile.Buffer.Pages.{pages, Owned}

module _ (S : BlobStore) where
  -- The bytes written and not yet read, in order.
  abbrev pub unread : Buffer S → Bytes
  unread s = drop s.roff s.rbuf.bytes ++ (pages S s.conn s.blobs ++ s.wbuf.bytes)

  -- All buffers and blobs have the page size `n`, and the blobs are the buffer's own.
  pub record Inv (n : ℕ) (s : Buffer S) : Type 0 where
    pub no_error : s.error ≡ none
    pub page_pos : 0 < n
    pub rbuf_cap : cap_of s.rbuf ≡ n
    pub wbuf_cap : cap_of s.wbuf ≡ n
    pub roff_le : s.roff ≤ length s.rbuf.bytes
    pub owned : Owned S s.conn n (s.blobs ++ s.freelist)

  module _ {A : Type 0} (Q : A → Buffer S → Type 0) (R : Error → Buffer S → Type 0) where
    -- `Q` holds of the result and the buffer after a success, `R` after an error.
    pub data Post : Result A × Buffer S → Type 0 where
      returns : {a : A} {s : Buffer S} → Q a s → Post (ok a, s)
      fails : {e : Error} {s : Buffer S} → R e s → Post (err e, s)

    abbrev pub Holds : Result A × Buffer S → Type 0
    Holds (ok a, s) = Q a s
    Holds (err e, s) = R e s

  -- What a proof about the outcome at hand says of it.
  pub Post-Holds :
      {A : Type 0} {Q : A → Buffer S → Type 0} {R : Error → Buffer S → Type 0}
      {r : Result A × Buffer S}
      → Post Q R r
      → Holds Q R r
  Post-Holds (returns q) = q
  Post-Holds (fails x) = x

  module _ {A B : Type 0} {Q : B → Buffer S → Type 0} {R : Error → Buffer S → Type 0} where
    continue-Post :
        {P : A → Buffer S → Type 0} (f : A → Op S B) {r : Result A × Buffer S}
        → Post P R r
        → ((a : A) (t : Buffer S) → P a t → Post Q R (f a t))
        → Post Q R (continue S r.0 f r.1)
    continue-Post f (returns {a} {s} p) k = k a s p
    continue-Post f (fails x) k = fails x

    pub Post-bind :
        {P : A → Buffer S → Type 0} (m : Op S A) (f : A → Op S B) (s : Buffer S)
        → Post P R (m s)
        → ((a : A) (t : Buffer S) → P a t → Post Q R (f a t))
        → Post Q R (◌>>=◌ S m f s)
    Post-bind m f s h k = continue-Post f h k

    recorded-Post :
        (r : Result A) (c : S.Conn) (f : A → Op S B) (s : Buffer S)
        → ((a : A) → r ≡ ok a → Post Q R (f a (record s { conn = c })))
        → ((e : Error) → R e (record s { conn = c; error = some e }))
        → Post Q R (
            continue S
              (sticky S r (record s { conn = c })).0
              f
              (sticky S r (record s { conn = c })).1)
    recorded-Post (ok a) c f s good bad = good a refl
    recorded-Post (err e) c f s good bad = fails (bad e)

    -- A recorded call on the connection: what follows may use that the call succeeded.
    pub Post-on_conn :
        (call : S.Conn → Result A × S.Conn) (f : A → Op S B) (s : Buffer S)
        → ((a : A) → (call s.conn).0 ≡ ok a → Post Q R (f a (record s { conn = (call s.conn).1 })))
        → ((e : Error) → R e (record s { conn = (call s.conn).1; error = some e }))
        → Post Q R (◌>>=◌ S (recording S (on_conn S call)) f s)
    Post-on_conn call f s good bad = recorded-Post (call s.conn).0 (call s.conn).1 f s good bad

  -- An error that `recording` passes on is in the buffer.
  pub Post-recording :
      {A : Type 0} {P : A → Buffer S → Type 0} {R : Error → Buffer S → Type 0}
      {r : Result A × Buffer S}
      → Post P R r
      → Post P (λ e s. s.error ≡ some e) (sticky S r.0 r.1)
  Post-recording (returns p) = returns p
  Post-recording (fails x) = fails refl

  pub Post-ok :
      {A : Type 0} {Q : A → Buffer S → Type 0} {R : Error → Buffer S → Type 0}
      {r : Result A × Buffer S} {a : A}
      → Post Q R r
      → r.0 ≡ ok a
      → Q a r.1
  Post-ok {Q = Q} (returns {s = s} q) e = subst (λ a. Q a s) (ok-injective e) q
  Post-ok (fails x) e = cc

  pub Post-err :
      {A : Type 0} {Q : A → Buffer S → Type 0} {R : Error → Buffer S → Type 0}
      {r : Result A × Buffer S} {x : Error}
      → Post Q R r
      → r.0 ≡ err x
      → R x r.1
  Post-err (returns q) e = cc
  Post-err {R = R} (fails {s = s} y) e = subst (λ x. R x s) (cc) y

  pub unless_failed-Post :
      {B : Type 0} {Q : B → Buffer S → Type 0} {R : Error → Buffer S → Type 0}
      (f : Unit {0} → Op S B) (s : Buffer S)
      → s.error ≡ none
      → Post Q R (f tt s)
      → Post Q R (◌>>=◌ S (unless_failed S) f s)
  unless_failed-Post {Q = Q} {R = R} f s e p =
      subst (λ o. Post Q R (continue S (pass S o s).0 f (pass S o s).1)) (sym e) p

  pub Post-weaken :
      {A : Type 0} {P Q : A → Buffer S → Type 0} {R : Error → Buffer S → Type 0}
      {r : Result A × Buffer S}
      → ((a : A) (s : Buffer S) → P a s → Q a s)
      → Post P R r
      → Post Q R r
  Post-weaken f (returns {a} {s} p) = returns (f a s p)
  Post-weaken f (fails x) = fails x
