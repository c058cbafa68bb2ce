-- ===== src/Blob.antt =====
-- blob.go: a handle for incremental I/O on a blob, which reads and writes through a buffer of fixed size.
-- `BlobApi` is what it calls of the SQLite library (sqlite3_blob_read and sqlite3_blob_write on the open
-- handle) and of the connection; `BlobApiLaws` is what is documented of it. Sizes fit in an int32.
pub mod Seeking
pub mod Reading
pub mod Writing
mod Tests
use go_sqlite.Base.{
  ℕ, zero, suc, ◌+◌, ◌-◌, Bool, true, false, not, Option, none, some, List, [], ◌∷◌, ◌++◌, length,
  take, drop, min, leb, ltb, is_empty, if◌then◌else◌,
}
use go_sqlite.Base.Int.{ℤ, pos, negsuc, ◌+ℤ◌, pos_part}
use go_sqlite.Errors.{Error, message, Result, ok, err}
use go_sqlite.BlobApi.{BlobApi}

abbrev pub blob_buf_size : ℕ
blob_buf_size = 4096

-- `is_open`: the handle is not 0.
pub record Blob : Type 0 where
  pub is_open : Bool
  pub off : ℕ
  pub size : ℕ

abbrev pub err_invalid_blob : Error
err_invalid_blob = message "invalid blob"

-- io.EOF
abbrev pub eof : Error
eof = message "EOF"

-- io.SeekStart, io.SeekCurrent, io.SeekEnd, and any other number
pub data Whence : Type 0 where
  seek_start seek_current seek_end invalid_whence : Whence

abbrev pub from_whence : Blob → ℤ → Whence → Option ℤ
from_whence b offset seek_start = some offset
from_whence b offset seek_current = some (offset +ℤ pos b.off)
from_whence b offset seek_end = some (offset +ℤ pos b.size)
from_whence b offset invalid_whence = none

-- What Seek returns, with the blob behind it.
abbrev pub SeekEnd : Type 0
SeekEnd = ℕ × Option Error × Blob

abbrev pub seek_to : Blob → Option ℤ → SeekEnd
seek_to b none = (b.off, some (message "sqlite: seek blob: invalid whence"), b)
seek_to b (some (negsuc n)) = (b.off, some (message "sqlite: seek blob: negative offset"), b)
seek_to b (some (pos n)) =
    if ltb b.size n
    then (b.off, some (message "sqlite: seek blob: offset is past size"), b)
    else (n, none, record b { off = n })

-- (*Blob).Seek
unfoldable pub seek : Blob → ℤ → Whence → SeekEnd
seek b offset whence = seek_to b (from_whence b offset whence)

-- A read: the bytes that are in p, whose number is returned, and the error. `out_of_fuel` is no end of
-- the code's.
pub data IoEnd : Type 0 where
  io_end : List ℕ → Option Error → IoEnd
  out_of_fuel : IoEnd

abbrev pub with_before : List ℕ → IoEnd → IoEnd
with_before bs (io_end cs e) = io_end (bs ++ cs) e
with_before bs out_of_fuel = out_of_fuel

module _ (A : BlobApi) where
  open A use {World, interrupted, blob_read, blob_write}

  abbrev pub before_rest : List ℕ → IoEnd × Blob × World → IoEnd × Blob × World
  before_rest bs (r, b, w) = (with_before bs r, b, w)

  abbrev pub got_chunk :
      (Blob → World → IoEnd × Blob × World)
      → Blob
      → ℕ
      → Result (List ℕ) × World
      → IoEnd × Blob × World
  got_chunk rest b n (err e, w) = (io_end [] (some e), b, w)
  got_chunk rest b n (ok bs, w) = before_rest bs (rest (record b { off = b.off + n }) w)

  -- for len(p) > 0, with the length of p that is left
  pub read_chunks : ℕ → ℕ → Blob → World → IoEnd × Blob × World
  read_chunks fuel zero b w = (io_end [] none, b, w)
  read_chunks zero (suc n) b w = (out_of_fuel, b, w)
  read_chunks (suc fuel) (suc n) b w =
      let k = min blob_buf_size (suc n) in
      got_chunk (read_chunks fuel (suc n - k)) b k (blob_read k b.off w)

  abbrev pub unless_interrupted :
      Option Error → IoEnd × Blob × World → Blob → World → IoEnd × Blob × World
  unless_interrupted none r b w = r
  unless_interrupted (some e) r b w = (io_end [] (some e), b, w)

  -- (*Blob).Read, for a p of a length
  pub read : ℕ → ℕ → Blob → World → IoEnd × Blob × World
  read fuel n b w =
      if not b.is_open
      then (io_end [] (some err_invalid_blob), b, w)
      else if leb b.size b.off
      then (io_end [] (some eof), b, w)
      else unless_interrupted (interrupted w) (read_chunks fuel (min n (b.size - b.off)) b w) b w

  abbrev pub wrote_chunk :
      (Blob → World → IoEnd × Blob × World)
      → Blob
      → List ℕ
      → Option Error × World
      → IoEnd × Blob × World
  wrote_chunk rest b q (some e, w) = (io_end [] (some e), b, w)
  wrote_chunk rest b q (none, w) = before_rest q (rest (record b { off = b.off + length q }) w)

  -- The loop of Write and of WriteString; the bytes of its end are those that were written.
  pub write_chunks : ℕ → List ℕ → Blob → World → IoEnd × Blob × World
  write_chunks fuel [] b w = (io_end [] none, b, w)
  write_chunks zero (x ∷ p) b w = (out_of_fuel, b, w)
  write_chunks (suc fuel) (x ∷ p) b w =
      let q = take blob_buf_size (x ∷ p) in
      wrote_chunk (write_chunks fuel (drop blob_buf_size (x ∷ p))) b q (blob_write q b.off w)

  -- (*Blob).Write and (*Blob).WriteString
  pub write : ℕ → List ℕ → Blob → World → IoEnd × Blob × World
  write fuel p b w =
      if not b.is_open
      then (io_end [] (some err_invalid_blob), b, w)
      else unless_interrupted (interrupted w) (write_chunks fuel p b w) b w
