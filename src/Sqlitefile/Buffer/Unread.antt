-- ===== src/Sqlitefile/Buffer/Unread.antt =====
-- UnreadByte undoes a ReadByte, and refuses where there is no byte to give back.
use go_sqlite.Base.{ℕ, suc, ◌≡◌, none, arith}
use go_sqlite.Sqlitefile.Blobs.{no_byte_to_unread, ok, err, BlobStore, BlobLaws}
use go_sqlite.Sqlitefile.Buffer.{Buffer, unread_byte, read_byte}
use go_sqlite.Sqlitefile.Buffer.Invariant.{unread, Inv, Post-ok}
use go_sqlite.Sqlitefile.Buffer.Read.{read_byte_takes_first}

module _ (S : BlobStore) where
  unread_at :
      (s : Buffer S) (k : ℕ)
      → s.error ≡ none
      → s.roff ≡ suc k
      → unread_byte S s ≡ (ok tt, record s { roff = k })
  unfolding unread_byte
  unread_at s k e at = ground arith

  -- On a buffer that has not failed and with the read position at 0, UnreadByte fails and changes
  -- nothing.
  pub unread_byte_refused :
      (n : ℕ) (s : Buffer S) → Inv S n s → s.roff ≡ 0 → unread_byte S s ≡ (err no_byte_to_unread, s)
  unfolding unread_byte
  unread_byte_refused n s v at = ground (arith, v.no_error)

module _ (S : BlobStore) (laws : BlobLaws S) where
  -- After a ReadByte that returned a byte, UnreadByte succeeds, and what was unread before the
  -- ReadByte is unread again.
  pub unread_byte-read_byte :
      (n c : ℕ) (s : Buffer S)
      → Inv S n s
      → (read_byte S s).0 ≡ ok c
      → (s' : Buffer S) × (unread_byte S (read_byte S s).1 ≡ (ok tt, s'))
        × (unread S s' ≡ unread S s)
  unread_byte-read_byte n c s v e =
      let (_, v', (k, at, same)) = Post-ok S (read_byte_takes_first S laws n s v) e in
      (
        record ((read_byte S s).1) { roff = k },
        unread_at S (read_byte S s).1 k v'.no_error at,
        same,
      )
