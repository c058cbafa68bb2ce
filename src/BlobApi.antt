-- ===== src/BlobApi.antt =====
-- What blob.go uses of the SQLite library and of the connection, with the world passed along.
use go_sqlite.Base.{ℕ, ◌+◌, ◌≤◌, ◌≡◌, Option, none, List, length, take, drop}
use go_sqlite.Errors.{Error, Result, ok}
use go_sqlite.Base.Bytes.{splice}

pub record BlobApi : Type 1 where
  pub World : Type 0
  -- blob.conn.interrupted()
  pub interrupted : World → Option Error
  -- A number of bytes from an offset on; these bytes at an offset.
  pub blob_read : ℕ → ℕ → World → Result (List ℕ) × World
  pub blob_write : List ℕ → ℕ → World → Option Error × World
  -- The bytes of the blob.
  pub content : World → List ℕ

module _ (A : BlobApi) where
  open A use {World, blob_read, blob_write, content}

  -- Calls that succeed stay inside the blob, and a blob keeps its size.
  pub record BlobApiLaws : Type 0 where
    pub read_ok :
        (n off : ℕ) (bs : List ℕ) (w : World)
        → (blob_read n off w).0 ≡ ok bs
        → (off + n ≤ length (content w)) × (bs ≡ take n (drop off (content w)))
    pub read_keeps : (n off : ℕ) (w : World) → content (blob_read n off w).1 ≡ content w
    pub write_ok :
        (p : List ℕ) (off : ℕ) (w : World)
        → (blob_write p off w).0 ≡ none
        → (off + length p ≤ length (content w))
          × (content (blob_write p off w).1 ≡ splice off p (content w))
