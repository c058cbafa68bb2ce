-- ===== src/Sqlitefile/File.antt =====
-- sqlitefile/file.go, the methods of a file whose bytes stand in blobs, one behind the other; module
-- Data has the file. The calls on a blob are modelled by their effect on its bytes, as module Blob has
-- them; `Faults` says which of them fail, and behind how many bytes. A file is not used once it is
-- closed.
pub mod Data
unfoldable pub use Data.*
pub mod Tape
pub mod Positions
pub mod Invariant
pub mod Chunk
pub mod Growing
pub mod Writing
pub mod Steps
pub mod Reading
pub mod Seeking
pub mod Truncating
pub mod RoundTrip
pub mod Creating
pub mod Gaps
pub mod Tests
use go_sqlite.Base.{
  ℕ, zero, suc, ◌+◌, ◌-◌, ◌*◌, ◌/◌, Bool, true, false, not, ◌&&◌, ◌||◌, Option, none, some, List,
  [], ◌∷◌, ◌++◌, length, get_elem?, get_or, set, take, drop, replicate, min, ltb, leb, ◌==◌,
  if◌then◌else◌,
}
use go_sqlite.Base.Int.{ℤ, pos, negsuc, ◌+ℤ◌}
use go_sqlite.Base.Bytes.{splice}
use go_sqlite.Blob.{Whence, seek_start, seek_current, seek_end, invalid_whence}
use go_sqlite.Errors.{Error, sqlite, result_error, message}

module _ (S : Faults) where
  open S use {World, fault}

  abbrev pub Method : Type 0 → Type 0
  Method A = Ending A × File × World

  abbrev pub add_blob : ℕ → File → World → Option Error × File × World
  add_blob n f w = ((add_blob_by n f (fault w).0).0, (add_blob_by n f (fault w).0).1, (fault w).1)

  -- (*File).grow
  unfoldable pub grow : File → World → Option Error × File × World
  grow f w = add_blob (size_of f.blobs (length f.blobs - 1) * 2) f w

  -- A write into a blob, which an index out of range panics.
  abbrev pub put_at :
      List Bytes
      → Position
      → Bytes
      → World
      → Option Bytes
      → Option (ℕ × Option Error × List Bytes) × World
  put_at bs p q w none = (none, w)
  put_at bs p q w (some b) =
      let r = write_blob b p.offset q (fault w).0 in
      (some (r.0, r.1, set bs p.index r.2), (fault w).1)

  -- What (*File).zero ends with: an error, the blobs and the world.
  abbrev pub ZeroEnd : Type 0
  ZeroEnd = Ending (Unit {0}) × List Bytes × World

  abbrev pub zeroed :
      (List Bytes → Position → World → ZeroEnd)
      → List Bytes
      → Position
      → Option (ℕ × Option Error × List Bytes) × World
      → ZeroEnd
  zeroed rest bs p1 (none, w) = (index_out_of_range, bs, w)
  zeroed rest bs p1 (some (n, some e, bs'), w) = (returned tt (some e), bs', w)
  zeroed rest bs p1 (some (n, none, bs'), w) = rest bs' (ahead p1 n) w

  -- (*File).zero, on fuel
  unfoldable pub zero_fill : ℕ → List Bytes → Position → Position → World → ZeroEnd
  zero_fill zero bs p1 p2 w = (if gt bs p2 p1 then out_of_fuel else returned tt none, bs, w)
  zero_fill (suc fuel) bs p1 p2 w =
      let q = past_end bs p1 in
      let step =
        zeroed (λ bs' p w'. zero_fill fuel bs' p p2 w') bs q
          (put_at bs q (replicate (zeros_to bs q p2) 0) w (get_elem? bs q.index)) in
      if gt bs p2 p1 then step else (returned tt none, bs, w)

  -- The loop of (*File).Write behind the choice of the blob: a chunk was written.
  abbrev pub wrote :
      (ℕ → File → World → Method ℕ)
      → ℕ
      → File
      → Option (ℕ × Option Error × List Bytes) × World
      → Method ℕ
  wrote rest done f (none, w) = (index_out_of_range, f, w)
  wrote rest done f (some (n, e, bs), w) =
      let off = ahead f.off n in
      let f' = record f { blobs = bs; off = off; len = if gt bs off f.len then off else f.len } in
      elim e [
        | none ↦ rest (done + n) f' w
        | some x ↦ (returned (done + n) (some x), record f' { error = some x }, w)
      ]

  -- if w == 0 { ... }: the file at the next blob, which may be a new one
  abbrev pub moved : Option Error × File × World → Option Error × File × World
  moved (some e, f, w) = (some e, record f { error = some e }, w)
  moved (none, f, w) = (none, record f { off = next_blob f.off }, w)

  abbrev pub move : File → World → Option Error × File × World
  move f w =
      if rem f.blobs f.off == 0
      then (if f.off.index == length f.blobs - 1 then moved (grow f w) else moved (none, f, w))
      else (none, f, w)

  abbrev pub write_chunk :
      (Bytes → ℕ → File → World → Method ℕ) → Bytes → ℕ → Option Error × File × World → Method ℕ
  write_chunk rest p done (some e, f, w) = (returned done (some e), f, w)
  write_chunk rest p done (none, f, w) =
      let k = min (length p) (rem f.blobs f.off) in
      wrote (rest (drop k p)) done f
        (put_at f.blobs f.off (take k p) w (get_elem? f.blobs f.off.index))

  -- for len(p) > 0, with the number of bytes done
  unfoldable pub write_loop : ℕ → Bytes → ℕ → File → World → Method ℕ
  write_loop fuel [] done f w = (returned done none, f, w)
  write_loop zero (x ∷ p) done f w = (out_of_fuel, f, w)
  write_loop (suc fuel) (x ∷ p) done f w = write_chunk (write_loop fuel) (x ∷ p) done (move f w)

  abbrev pub zero_gap : File → ZeroEnd → Ending (Unit {0}) × File × World
  zero_gap f (returned _ (some e), bs, w) =
      (returned tt (some e), record f { blobs = bs; error = some e }, w)
  zero_gap f (r, bs, w) = (r, record f { blobs = bs }, w)

  abbrev pub behind_gap : (File → World → Method ℕ) → Ending (Unit {0}) × File × World → Method ℕ
  behind_gap rest (returned _ none, f, w) = rest f w
  behind_gap rest (returned _ (some e), f, w) = (returned 0 (some e), f, w)
  behind_gap rest (index_out_of_range, f, w) = (index_out_of_range, f, w)
  behind_gap rest (out_of_fuel, f, w) = (out_of_fuel, f, w)

  abbrev pub unless_failed : {A : Type 0} → A → Option Error → Method A → File → World → Method A
  unless_failed a (some e) r f w = (returned a (some e), f, w)
  unless_failed a none r f w = r

  -- (*File).Write
  unfoldable pub write : ℕ → Bytes → File → World → Method ℕ
  write fuel p f w =
      unless_failed 0 f.error
        (if gt f.blobs f.off f.len
          then behind_gap (write_loop fuel p 0) (zero_gap f (zero_fill fuel f.blobs f.len f.off w))
          else write_loop fuel p 0 f w)
        f w

  -- The bytes that Read has put into p, and what it ends with.
  abbrev pub got_before : Bytes → Method Bytes → Method Bytes
  got_before bs (returned cs e, f, w) = (returned (bs ++ cs) e, f, w)
  got_before bs (index_out_of_range, f, w) = (index_out_of_range, f, w)
  got_before bs (out_of_fuel, f, w) = (out_of_fuel, f, w)

  abbrev pub got :
      (ℕ → File → World → Method Bytes) → ℕ → File → Bytes × Option Error → World → Method Bytes
  got rest n f (bs, some e) w =
      (returned bs (some e), record f { off = ahead f.off (length bs); error = some e }, w)
  got rest n f (bs, none) w =
      got_before bs (rest (n - length bs) (record f { off = ahead f.off (length bs) }) w)

  abbrev pub read_chunk :
      (ℕ → File → World → Method Bytes) → ℕ → File → World → Option Bytes → Method Bytes
  read_chunk rest n f w none = (index_out_of_range, f, w)
  read_chunk rest n f w (some b) =
      got rest n f (read_blob b f.off.offset (read_size n f) (fault w).0) (fault w).1

  -- for len(p) > 0 && bb.gt(bb.len, bb.off), with the length of p that is left
  unfoldable pub read_loop : ℕ → ℕ → File → World → Method Bytes
  read_loop fuel zero f w = (returned [] none, f, w)
  read_loop zero (suc n) f w =
      (if gt f.blobs f.len f.off then out_of_fuel else returned [] none, f, w)
  read_loop (suc fuel) (suc n) f w =
      let f' = record f { off = past_end f.blobs f.off } in
      let step = read_chunk (read_loop fuel) (suc n) f' w (get_elem? f'.blobs f'.off.index) in
      if gt f.blobs f.len f.off then step else (returned [] none, f, w)

  -- Behind the loop of (*File).Read
  abbrev pub or_eof : Method Bytes → Method Bytes
  or_eof (returned [] none, f, w) = (
    returned [] (if eq f.blobs f.off f.len || gt f.blobs f.off f.len then some eof else none),
    f,
    w,
  )
  or_eof r = r

  -- (*File).Read
  unfoldable pub read : ℕ → ℕ → File → World → Method Bytes
  read fuel n f w = unless_failed [] f.error (or_eof (read_loop fuel n f w)) f w

  -- for i := 0; rem > bb.blobs[i].Size(); i++
  abbrev pub grown_or : (File → World → Method ℤ) → ℤ → Option Error × File × World → Method ℤ
  grown_or rest back (some e, f, w) = (returned back (some e), f, w)
  grown_or rest back (none, f, w) = rest f w

  unfoldable pub seek_loop : ℕ → ℕ → ℕ → ℕ → File → World → Method ℤ
  seek_loop zero i offset left f w = (out_of_fuel, f, w)
  seek_loop (suc fuel) i offset left f w =
      let f' = record f { off = record f.off { index = suc i } } in
      let left' = left - size_of f.blobs i in
      let rest = seek_loop fuel (suc i) offset left' in
      let step =
        if i == length f.blobs - 1
        then grown_or rest (pos (offset - left')) (grow f' w)
        else rest f' w in
      if ltb (size_of f.blobs i) left then step else (
        returned (pos offset) none,
        record f { off = record { index = f.off.index; offset = left } },
        w,
      )

  abbrev pub seek_from : ℕ → ℤ → File → World → Method ℤ
  seek_from fuel (negsuc n) f w = (
    returned (negsuc 0)
        (some (message "sqlitex.File: attempting to seek before beginning of blob")),
    f,
    w,
  )
  seek_from fuel (pos n) f w =
      seek_loop fuel 0 n n (record f { off = record f.off { index = 0 } }) w

  -- (*File).Seek
  unfoldable pub seek : ℕ → ℤ → Whence → File → World → Method ℤ
  seek fuel offset whence f w =
      unless_failed (pos 0) f.error (seek_from fuel (seek_offset f offset whence) f w) f w

  abbrev pub cut : File → Position → ZeroEnd → Method (Unit {0})
  cut f p (returned _ none, bs, w) = (returned tt none, record f { blobs = bs; len = p }, w)
  cut f p (r, bs, w) = (r, record f { blobs = bs }, w)

  abbrev pub or_grown :
      (ℕ → File → World → Method (Unit {0})) → ℕ → Option Error × File × World → Method (Unit {0})
  or_grown rest n (some e, f, w) = (returned tt (some e), f, w)
  or_grown rest n (none, f, w) = rest n f w

  abbrev pub truncate_by :
      (ℕ → File → World → Method (Unit {0})) → ℕ → File → World → Fit → Method (Unit {0})
  truncate_by rest fuel f w (inside p) = cut f p (zero_fill fuel f.blobs f.len p w)
  truncate_by rest fuel f w (left_over n) = or_grown rest n (grow f w)

  -- (*File).Truncate, on fuel; it starts again with the size that is left.
  unfoldable pub truncate : ℕ → ℕ → File → World → Method (Unit {0})
  truncate zero size f w = (out_of_fuel, f, w)
  truncate (suc fuel) size f w = truncate_by (truncate fuel) fuel f w (fit 0 size f.blobs)

  abbrev pub on_each : List Bytes → Option Error → World → Option Error × World
  on_each [] e w = (e, w)
  on_each (b ∷ bs) e w = on_each bs (first_fault e (fault w).0) (fault w).1

  -- (*File).Close: the blobs are closed, then their rows deleted.
  unfoldable pub close : File → World → Option Error × File × World
  close f w = elim (f.error) [
    | some e ↦ (some e, f, w)
    | none ↦
        let (e1, w1) = on_each f.blobs none w in
        let (e2, w2) = on_each f.blobs e1 w1 in (e2, record f { blobs = []; error = e2 }, w2)
  ]

  -- NewFileSize
  abbrev pub created_by : ℕ → Option (ℕ × Error) × World → Option Error × File × World
  created_by n (some (k, e), w) = (some e, no_file, w)
  created_by n (none, w) = add_blob n no_file w

  unfoldable pub new_file_size : ℕ → World → Option Error × File × World
  new_file_size n w = created_by n (fault w)

  -- NewFile
  abbrev pub new_file : World → Option Error × File × World
  new_file w = new_file_size 16384 w
