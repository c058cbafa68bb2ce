-- ===== src/Blob/Writing.antt =====
-- What Write puts into the blob.
use go_sqlite.Base.{◌≡◌, ℕ, ◌+◌, ◌≤◌, true, false, none, some, List, [], ◌++◌, length}
use go_sqlite.Base.Bytes.{splice}
use go_sqlite.Errors.{Error}
use go_sqlite.BlobApi.{BlobApi, BlobApiLaws}
use go_sqlite.Blob.{Blob, err_invalid_blob, IoEnd, io_end}

module _ (A : BlobApi) (laws : BlobApiLaws A) where
  open A use {World, interrupted, blob_write, content}

  -- The bytes replace those from the offset on, within the blob; or a first part of them was written before
  -- an error. The offset is behind what was written.
  pub data IsWritten (c : List ℕ) (b : Blob) (p : List ℕ) : IoEnd × Blob × World → Type 0 where
    write_all :
        {q : List ℕ} {b' : Blob} {w' : World}
        → q ≡ p
        → b' ≡ record b { off = b.off + length p }
        → b.off + length p ≤ length c
        → content w' ≡ splice b.off p c
        → IsWritten c b p (io_end q none, b', w')
    write_some :
        {q : List ℕ} {b' : Blob} {w' : World} {e : Error} (rest : List ℕ)
        → q ++ rest ≡ p
        → b' ≡ record b { off = b.off + length q }
        → IsWritten c b p (io_end q (some e), b', w')

  -- Write on a closed blob and interrupted: with no bytes, and nothing changed.
  pub data WriteEnd (b : Blob) (p : List ℕ) (w : World) : IoEnd × Blob × World → Type 0 where
    closed : b.is_open ≡ false → WriteEnd b p w (io_end [] (some err_invalid_blob), b, w)
    stopped :
        {e : Error}
        → b.is_open ≡ true
        → interrupted w ≡ some e
        → WriteEnd b p w (io_end [] (some e), b, w)
    went :
        {r : IoEnd × Blob × World}
        → b.is_open ≡ true
        → interrupted w ≡ none
        → IsWritten (content w) b p r
        → WriteEnd b p w r
