-- ===== src/Sqlitefile/Blobs.antt =====
-- What package sqlitefile uses of package sqlite: the temporary table BlobBuffer and the
-- incremental I/O on its blobs (blob.go, and the statements that insert and delete its rows).
-- `BlobStore` has the operations, each with the connection's state passed along and any of them
-- free to fail; `BlobLaws` has what they promise where they succeed.
pub mod Memory
use go_sqlite.Base.{
  ◌⊎◌, inl, inr, refl, Bool, true, ℕ, ◌≤◌, ◌≡◌, ◌≢◌, ◌++◌, List, length, take, drop,
}

abbrev pub Bytes : Type 0
Bytes = List ℕ

-- A Go `error`. `sqlite` carries the result code; `panic` stands for a run-time panic.
pub data Error : Type 0 where
  eof : Error
  no_byte_to_unread : Error
  negative_offset : Error
  sqlite : ℕ → Error
  panic : Error

pub data Result {ℓ} (A : Type ℓ) : Type ℓ where
  ok : A → Result A
  err : Error → Result A

pub record BlobStore : Type 1 where
  pub Conn : Type 0
  pub Blob : Type 0
  -- CREATE TEMP TABLE IF NOT EXISTS BlobBuffer (blob BLOB);
  pub create_table : Conn → Result (Unit {0}) × Conn
  -- INSERT INTO BlobBuffer (blob) VALUES ($blob); with a zero blob of the size, then LastInsertRowID
  pub insert_zero_blob : ℕ → Conn → Result ℕ × Conn
  -- conn.OpenBlob("temp", "BlobBuffer", "blob", rowid, true)
  pub open_blob : ℕ → Conn → Result Blob × Conn
  -- blob.Seek(0, io.SeekStart)
  pub seek_start : Blob → Conn → Result (Unit {0}) × Conn
  -- blob.Write(p)
  pub write : Blob → Bytes → Conn → Result (Unit {0}) × Conn
  -- io.ReadFull(blob, p) for a p of the length: what was copied into p, and the error
  pub read_full : Blob → ℕ → Conn → Bytes × Result (Unit {0}) × Conn
  pub close : Blob → Conn → Result (Unit {0}) × Conn
  -- DELETE FROM BlobBuffer WHERE rowid = $rowid;
  pub delete_row : ℕ → Conn → Result (Unit {0}) × Conn
  -- The open handles, and the bytes behind a handle.
  pub is_live : Conn → Blob → Bool
  pub content : Conn → Blob → Bytes

module _ (S : BlobStore) where
  open S use {
    Conn, Blob, insert_zero_blob, open_blob, seek_start, write, read_full, is_live, content,
  }

  abbrev pub IsLive : Conn → Blob → Type 0
  IsLive c b = is_live c b ≡ true

  -- Every open blob stays open and keeps its bytes.
  abbrev pub Keeps : Conn → Conn → Type 0
  Keeps c d = (b : Blob) → IsLive c b → IsLive d b × (content d b ≡ content c b)

  -- The same of all blobs but one.
  abbrev pub KeepsOthers : Blob → Conn → Conn → Type 0
  KeepsOthers a c d = (b : Blob) → b ≢ a → IsLive c b → IsLive d b × (content d b ≡ content c b)

  pub record BlobLaws : Type 0 where
    -- A new row's blob is a new handle, of the size asked for.
    pub opened :
        (n : ℕ) (c : Conn) (r : ℕ) (b : Blob)
        → (insert_zero_blob n c).0 ≡ ok r
        → (open_blob r (insert_zero_blob n c).1).0 ≡ ok b
        → (¬ IsLive c b)
          × IsLive (open_blob r (insert_zero_blob n c).1).1 b
          × (length (content (open_blob r (insert_zero_blob n c).1).1 b) ≡ n)
          × Keeps c (open_blob r (insert_zero_blob n c).1).1
    -- A write at the start replaces as many bytes as it has, and succeeds only if they fit.
    pub written :
        (b : Blob) (p : Bytes) (c : Conn)
        → IsLive c b
        → (seek_start b c).0 ≡ ok tt
        → (write b p (seek_start b c).1).0 ≡ ok tt
        → IsLive (write b p (seek_start b c).1).1 b
          × (length p ≤ length (content c b))
          × (content (write b p (seek_start b c).1).1 b ≡ p ++ drop (length p) (content c b))
          × KeepsOthers b c (write b p (seek_start b c).1).1
    -- A full read at the start returns the first bytes, and succeeds only if there are enough.
    pub was_read :
        (b : Blob) (n : ℕ) (c : Conn)
        → IsLive c b
        → (seek_start b c).0 ≡ ok tt
        → (read_full b n (seek_start b c).1).1 ≡ ok tt
        → (n ≤ length (content c b))
          × ((read_full b n (seek_start b c).1).0 ≡ take n (content c b))
          × Keeps c (read_full b n (seek_start b c).1).2

pub Result-cases {ℓ} :
    {A : Type ℓ} (r : Result A) → ((a : A) × (r ≡ ok a)) ⊎ ((e : Error) × (r ≡ err e))
Result-cases (ok a) = inl (a, refl)
Result-cases (err e) = inr (e, refl)

pub ok-injective {ℓ} : {A : Type ℓ} {a b : A} → ok a ≡ ok b → a ≡ b
ok-injective e = cc
