-- ===== src/Sqlitefile/File/Data.antt =====
-- sqlitefile/file.go: a file, its positions and their order, and what the calls on a blob do.
use go_sqlite.Base.{
  ℕ, zero, suc, ◌+◌, ◌-◌, ◌*◌, ◌/◌, Bool, false, not, ◌&&◌, ◌||◌, Option, none, some, List, [], ◌∷◌,
  ◌++◌, length, get_or, take, drop, replicate, min, ltb, leb, ◌==◌, if◌then◌else◌,
}
use go_sqlite.Base.Int.{ℤ, pos, ◌+ℤ◌}
use go_sqlite.Base.Bytes.{splice}
use go_sqlite.Blob.{Whence, seek_start, seek_current, seek_end, invalid_whence}
use go_sqlite.Errors.{Error, sqlite, result_error, message}

abbrev pub Bytes : Type 0
Bytes = List ℕ

-- bbpos
pub record Position : Type 0 where
  pub index : ℕ
  pub offset : ℕ

pub record File : Type 0 where
  pub error : Option Error
  pub blobs : List Bytes
  pub off : Position
  pub len : Position

-- Which calls of SQLite fail: a fault is the number of bytes that were done before it, and the error.
pub record Faults : Type 1 where
  pub World : Type 0
  pub fault : World → Option (ℕ × Error) × World

-- bb.blobs[i].Size()
abbrev pub size_of : List Bytes → ℕ → ℕ
size_of bs i = length (get_or bs i [])

-- (*File).rem; a position is in its blob.
abbrev pub rem : List Bytes → Position → ℕ
rem bs p = size_of bs p.index - p.offset

abbrev pub same_position : Position → Position → Bool
same_position p q = p.index == q.index && p.offset == q.offset

-- (*File).eq
unfoldable pub eq : List Bytes → Position → Position → Bool
eq bs p1 p2 =
    same_position p1 p2
    || ((p1.index == p2.index + 1 && (rem bs p1 == 0 && p2.offset == 0))
        || (p2.index == p1.index + 1 && (rem bs p2 == 0 && p1.offset == 0)))

-- (*File).gt
unfoldable pub gt : List Bytes → Position → Position → Bool
gt bs p1 p2 =
    if eq bs p1 p2
    then false
    else if not (p1.index == p2.index)
    then ltb p2.index p1.index
    else ltb p2.offset p1.offset

-- p.index++; p.pos = 0, where nothing remains in the blob
abbrev pub next_blob : Position → Position
next_blob p = record { index = suc p.index; offset = 0 }

abbrev pub past_end : List Bytes → Position → Position
past_end bs p = if rem bs p == 0 then next_blob p else p

abbrev pub ahead : Position → ℕ → Position
ahead p n = record p { offset = p.offset + n }

-- The error of SQLite on a call that reaches behind the end of a blob, and io.EOF.
abbrev pub beyond_blob : Error
beyond_blob = sqlite result_error

abbrev pub eof : Error
eof = message "EOF"

-- How many bytes Write has done, the error, and the bytes of the blob.
abbrev pub Written : Type 0
Written = ℕ × Option Error × Bytes

-- Write writes whole chunks of 4096 bytes as long as they fit.
abbrev pub whole_chunks : Bytes → ℕ → ℕ
whole_chunks b at = (length b - at) / 4096 * 4096

-- blob.Seek(pos) and blob.Write(p)
abbrev pub write_blob : Bytes → ℕ → Bytes → Option (ℕ × Error) → Written
write_blob b at p (some (k, e)) = (length (take k p), some e, splice at (take k p) b)
write_blob b at p none =
    if leb (at + length p) (length b)
    then (length p, none, splice at p b)
    else (whole_chunks b at, some beyond_blob, splice at (take (whole_chunks b at) p) b)

-- blob.Seek(pos) and io.ReadFull(blob, p) for a p of a length
abbrev pub read_blob : Bytes → ℕ → ℕ → Option (ℕ × Error) → Bytes × Option Error
read_blob b at n (some (k, e)) = (take (min k n) (drop at b), some e)
read_blob b at n none = (take n (drop at b), if leb (at + n) (length b) then none else some eof)

-- bsize - bb.off.pos, or what is left of p
abbrev pub read_size : ℕ → File → ℕ
read_size n f = min n (
    (if f.len.index == f.off.index then f.len.offset else size_of f.blobs f.off.index)
    - f.off.offset)

-- What a method returns; `out_of_fuel` is no end of the code's.
pub data Ending (A : Type 0) : Type 0 where
  returned : A → Option Error → Ending A
  index_out_of_range out_of_fuel : Ending A

-- (*File).Len and (*File).Cap
abbrev pub sizes : ℕ → List Bytes → ℕ
sizes zero bs = 0
sizes (suc i) [] = 0
sizes (suc i) (b ∷ bs) = length b + sizes i bs

abbrev pub len_of : File → ℕ
len_of f = sizes f.len.index f.blobs + f.len.offset

abbrev pub cap_of : File → ℕ
cap_of f = sizes (length f.blobs) f.blobs

pub data Fit : Type 0 where
  inside : Position → Fit
  left_over : ℕ → Fit

-- The inner loop of (*File).Truncate: the position in a blob, or the size that is left behind all blobs.
abbrev pub fit : ℕ → ℕ → List Bytes → Fit
fit i size [] = left_over size
fit i size (b ∷ bs) =
    let rest = fit (suc i) (size - length b) bs in
    if ltb size (length b) then inside (record { index = i; offset = size }) else rest

-- The offset from the start, for a whence of SeekStart, SeekCurrent or SeekEnd.
abbrev pub seek_offset : File → ℤ → Whence → ℤ
seek_offset f offset seek_start = offset
seek_offset f offset seek_current = offset +ℤ pos (sizes f.off.index f.blobs + f.off.offset)
seek_offset f offset seek_end = offset +ℤ pos (len_of f)
seek_offset f offset invalid_whence = offset

abbrev pub zeros_to : List Bytes → Position → Position → ℕ
zeros_to bs p1 p2 = min 4096 (if p1.index == p2.index then p2.offset else rem bs p1)

-- bb.err = err, where there is none yet, for a call on each blob
abbrev pub first_fault : Option Error → Option (ℕ × Error) → Option Error
first_fault (some e) r = some e
first_fault none none = none
first_fault none (some (k, e)) = some e

abbrev pub at_start : Position
at_start = record { index = 0; offset = 0 }

abbrev pub no_file : File
no_file = record { error = none; blobs = []; off = at_start; len = at_start }

-- (*File).addblob
abbrev pub add_blob_by : ℕ → File → Option (ℕ × Error) → Option Error × File
add_blob_by n f (some (k, e)) = (some e, f)
add_blob_by n f none = (none, record f { blobs = f.blobs ++ replicate n 0 ∷ [] })
