-- ===== src/Blob/Tests.antt =====
-- A blob of six bytes in memory, and the theorems at it.
use go_sqlite.Base.{
  ◌≡◌, refl, ℕ, ◌+◌, true, Option, none, some, List, [], ◌∷◌, length, take, drop, leb,
  if◌then◌else◌,
}
use go_sqlite.Base.Bytes.{splice}
use go_sqlite.Errors.{Error, sqlite, result_error, Result, ok, err}
use go_sqlite.BlobApi.{BlobApi}
use go_sqlite.Blob.{Blob, io_end, read, read_chunks, write, write_chunks}

abbrev read_bytes : ℕ → ℕ → List ℕ → Result (List ℕ) × List ℕ
read_bytes n off c =
    (if leb (off + n) (length c) then ok (take n (drop off c)) else err (sqlite result_error), c)

abbrev write_bytes : List ℕ → ℕ → List ℕ → Option Error × List ℕ
write_bytes p off c =
    if leb (off + length p) (length c)
    then (none, splice off p c)
    else (some (sqlite result_error), c)

abbrev in_memory : BlobApi
in_memory = record {
  World = List ℕ;
  interrupted = λ c. none;
  blob_read = read_bytes;
  blob_write = write_bytes;
  content = λ c. c;
}

abbrev six : List ℕ
six = 1 ∷ 2 ∷ 3 ∷ 4 ∷ 5 ∷ 6 ∷ []

abbrev at_two : Blob
at_two = record { is_open = true; off = 2; size = 6 }

reads_three : (read in_memory 9 3 at_two six).0 ≡ io_end (3 ∷ 4 ∷ 5 ∷ []) none
unfolding read read_chunks
reads_three = refl

writes_two : (write in_memory 9 (8 ∷ 9 ∷ []) at_two six).2 ≡ 1 ∷ 2 ∷ 8 ∷ 9 ∷ 5 ∷ 6 ∷ []
unfolding write write_chunks
writes_two = refl
