-- ===== src/Blob/Reading.antt =====
-- What Read copies.
use go_sqlite.Base.{◌≡◌, ℕ, ◌+◌, ◌-◌, ◌≤◌, ◌<◌, true, false, none, some, List, [], take, drop, min}
use go_sqlite.Errors.{Error}
use go_sqlite.BlobApi.{BlobApi, BlobApiLaws}
use go_sqlite.Blob.{Blob, err_invalid_blob, eof, IoEnd, io_end}

module _ (A : BlobApi) (laws : BlobApiLaws A) where
  open A use {World, interrupted, blob_read, content}

  -- The bytes from the offset on, as many as asked for, or fewer with an error; the offset is behind them,
  -- and the blob has the same bytes.
  pub data IsRead (c : List ℕ) (b : Blob) (n : ℕ) : IoEnd × Blob × World → Type 0 where
    read_all :
        {bs : List ℕ} {b' : Blob} {w' : World}
        → bs ≡ take n (drop b.off c)
        → b' ≡ record b { off = b.off + n }
        → content w' ≡ c
        → IsRead c b n (io_end bs none, b', w')
    read_some :
        {bs : List ℕ} {b' : Blob} {w' : World} {e : Error} (k : ℕ)
        → k ≤ n
        → bs ≡ take k (drop b.off c)
        → b' ≡ record b { off = b.off + k }
        → content w' ≡ c
        → IsRead c b n (io_end bs (some e), b', w')

  -- Read on a closed blob, at the end of the blob, and interrupted: with no bytes, and nothing changed.
  pub data ReadEnd (b : Blob) (n : ℕ) (w : World) : IoEnd × Blob × World → Type 0 where
    closed : b.is_open ≡ false → ReadEnd b n w (io_end [] (some err_invalid_blob), b, w)
    at_end : b.is_open ≡ true → b.size ≤ b.off → ReadEnd b n w (io_end [] (some eof), b, w)
    stopped :
        {e : Error}
        → b.is_open ≡ true
        → b.off < b.size
        → interrupted w ≡ some e
        → ReadEnd b n w (io_end [] (some e), b, w)
    went :
        {r : IoEnd × Blob × World}
        → b.is_open ≡ true
        → b.off < b.size
        → interrupted w ≡ none
        → IsRead (content w) b (min n (b.size - b.off)) r
        → ReadEnd b n w r
