-- ===== src/Sqlitefile/Buffer/Sizes.antt =====
-- Len, Cap, Reset and UnreadByte, and a buffer from NewBufferSize.
use mathlib.Core.List.{Nodup-nil, not-mem-nil, perm_append_comm}
use go_sqlite.Base.{
  ℕ, ◌+◌, ◌*◌, ◌<◌, ◌≡◌, refl, ap, ap₂, subst, ◌∙◌, [], ◌++◌, arith, length, drop, length-append,
  length-drop,
}
use go_sqlite.Sqlitefile.Slice.{cap_of-clear, cap_of-make}
use go_sqlite.Sqlitefile.Blobs.{Result, ok, err, ok-injective, BlobStore}
use go_sqlite.Sqlitefile.Buffer.{Buffer, len, cap, reset, fresh, created, new_buffer_size}
use go_sqlite.Sqlitefile.Buffer.Pages.{pages, Owned-perm, length-pages}
use go_sqlite.Sqlitefile.Buffer.Invariant.{unread, Inv}

module _ (S : BlobStore) where
  -- Len is the number of bytes that are unread.
  pub len-eq-length : (n : ℕ) (s : Buffer S) → Inv S n s → len S s ≡ length (unread S s)
  unfolding len
  len-eq-length n s v = omega (
    arith,
    length-append (drop s.roff s.rbuf.bytes) (pages S s.conn s.blobs ++ s.wbuf.bytes),
    length-append (pages S s.conn s.blobs) s.wbuf.bytes,
    length-drop s.roff s.rbuf.bytes,
    length-pages S s.blobs s.freelist v.owned,
    ap (λ c. c * length s.blobs) v.rbuf_cap,
  )

  -- Reset leaves nothing unread, and keeps the invariant and every allocated page.
  pub reset_empties :
      (n : ℕ) (s : Buffer S)
      → Inv S n s
      → Inv S n (reset S s) × (unread S (reset S s) ≡ []) × (cap S (reset S s) ≡ cap S s)
  unfolding reset cap
  reset_empties n s v = (
    record {
      no_error = v.no_error;
      page_pos = v.page_pos;
      rbuf_cap = cap_of-clear s.rbuf ∙ v.rbuf_cap;
      wbuf_cap = cap_of-clear s.wbuf ∙ v.wbuf_cap;
      roff_le = omega arith;
      owned = Owned-perm S (perm_append_comm s.blobs s.freelist) v.owned;
    },
    refl,
    ap₂ (λ a b. (2 + a) * b) (omega (arith, length-append s.freelist s.blobs))
        (cap_of-clear s.rbuf),
  )

  pub fresh-Inv : (n : ℕ) (c : S.Conn) → 0 < n → Inv S n (fresh S n c)
  fresh-Inv n c pos = record {
    no_error = refl;
    page_pos = pos;
    rbuf_cap = cap_of-make n;
    wbuf_cap = cap_of-make n;
    roff_le = omega arith;
    owned = record {
      distinct = Nodup-nil;
      live = λ b m. absurd (not-mem-nil m);
      sized = λ b m. absurd (not-mem-nil m);
    };
  }

  -- A new buffer of a page size above 0 satisfies the invariant, has nothing to read, and has two
  -- pages allocated.
  pub new_buffer_size_empty :
      (n : ℕ) (c : S.Conn) (s : Buffer S)
      → 0 < n
      → (new_buffer_size S n c).0 ≡ ok s
      → Inv S n s × (unread S s ≡ []) × (cap S s ≡ 2 * n)
  unfolding new_buffer_size cap
  new_buffer_size_empty n c s pos e = by_result (S.create_table c) e
    where
      by_result :
          (r : Result (Unit {0}) × S.Conn)
          → (created S n r).0 ≡ ok s
          → Inv S n s × (unread S s ≡ []) × (cap S s ≡ 2 * n)
      by_result (err x, d) e = cc
      by_result (ok _, d) e =
          subst (λ u. Inv S n u × (unread S u ≡ []) × (cap S u ≡ 2 * n)) (ok-injective e)
            (fresh-Inv n d pos, refl, ap (λ k. 2 * k) (cap_of-make n))
