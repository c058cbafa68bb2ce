-- ===== src/Sqlitefile/Buffer/Failures.antt =====
-- How a Buffer fails: for good, on a page that is too short, and never at all with empty pages.
use go_sqlite.Base.{
  ℕ, zero, suc, ◌+◌, ◌<◌, ◌≡◌, refl, some, none, [], ◌∷◌, arith, min, length, inl, inr,
}
use go_sqlite.Sqlitefile.Blobs.{Bytes, Error, err, BlobStore, BlobLaws, Result-cases}
use go_sqlite.Sqlitefile.Buffer.{
  Buffer, fresh, wbuf_ensure_space, write, write_loop, write_byte, write_string, read, read_byte,
  unread_byte, flush,
}
use go_sqlite.Sqlitefile.Buffer.Invariant.{Inv, Post-ok, Post-err}
use go_sqlite.Sqlitefile.Buffer.Flush.{IsFull, flush-Post}

module _ (S : BlobStore) where
  -- Once an operation has left an error in the buffer, every read, write and unread returns that
  -- error and changes nothing.
  pub failed_buffer_refuses :
      (s : Buffer S) (e : Error) (p : Bytes) (k c : ℕ)
      → s.error ≡ some e
      → (write S p s ≡ some ((0, err e), s))
        × (write_string S p s ≡ some ((0, err e), s))
        × (write_byte S c s ≡ (err e, s))
        × (read S k s ≡ (err e, s))
        × (read_byte S s ≡ (err e, s))
        × (unread_byte S s ≡ (err e, s))
  unfolding write write_string write_byte read read_byte unread_byte
  failed_buffer_refuses s e p k c h =
      (ground arith, ground arith, ground arith, ground arith, ground arith, ground arith)

  -- With pages of 0 bytes a Write of a byte or more never ends, whatever fuel it is given.
  pub write_empty_pages_diverges :
      (fuel m x : ℕ) (xs : Bytes) (c : S.Conn) → write_loop S fuel m (x ∷ xs) (fresh S 0 c) ≡ none
  unfolding write_loop wbuf_ensure_space
  write_empty_pages_diverges zero m x xs c = refl
  write_empty_pages_diverges (suc fuel) m x xs c =
      let no_room : min (suc (length xs)) 0 ≡ 0 = omega arith in
      rw no_room (write_empty_pages_diverges fuel (m + 0) x xs c)

module _ (S : BlobStore) (laws : BlobLaws S) where
  -- The read buffer holds a page that is not full, as after a read that took the place of a partly
  -- filled write buffer, and no blob is free.
  pub record IsShort (n : ℕ) (s : Buffer S) : Type 0 where
    pub some_left : s.roff < length s.rbuf.bytes
    pub partial : length s.rbuf.bytes < n
    pub none_free : s.freelist ≡ []
    pub full : IsFull S laws s

  flush_fails :
      (n : ℕ) (s : Buffer S)
      → Inv S n s
      → IsShort n s
      → (e : Error) × ((flush S s).0 ≡ err e) × ((flush S s).1.error ≡ some e)
  flush_fails n s v h = elim (Result-cases (flush S s).0) [
    | inl (_, e) ↦
        absurd
          (omega (arith, (Post-ok S (flush-Post S laws n s v h.full) e).1 h.none_free, h.partial))
    | inr (x, e) ↦ (x, e, Post-err S (flush-Post S laws n s v h.full) e)
  ]

  -- On a buffer that has not failed, with a full write buffer, no free blob, and a read buffer that
  -- is neither used up nor a whole page, a Write of a byte or more writes nothing and fails for
  -- good, even if SQLite does all that is asked of it.
  pub write_fails_behind_short_page :
      (n x : ℕ) (xs : Bytes) (s : Buffer S)
      → Inv S n s
      → IsShort n s
      → (e : Error) × (s' : Buffer S) × (write S (x ∷ xs) s ≡ some ((0, err e), s'))
        × (s'.error ≡ some e)
  unfolding write write_loop wbuf_ensure_space
  write_fails_behind_short_page n x xs s v h =
      let (e, failed, kept) = flush_fails n s v h in (e, (flush S s).1, ground arith, kept)
