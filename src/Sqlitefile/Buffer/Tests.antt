-- ===== src/Sqlitefile/Buffer/Tests.antt =====
-- Runs of a Buffer over the table in memory, and the theorems at inputs of these runs.

use go_sqlite.Base.{ℕ, ◌≡◌, refl, some, none, [], ◌∷◌, ◌++◌, arith, length, ◌≤◌, ◌<◌}
use go_sqlite.Sqlitefile.Blobs.{Bytes, Error, no_byte_to_unread, sqlite, Result, ok, err}
use go_sqlite.Sqlitefile.Blobs.Memory.{memory, memory_laws, empty_table}
use go_sqlite.Sqlitefile.Buffer.{
  Buffer, fresh, write, read, read_byte, unread_byte, write_loop, alloc_new, alloc, free, flush,
  wbuf_ensure_space, read_page, refill_from, refill_from_wbuf, rbuf_fill,
}
use go_sqlite.Sqlitefile.Buffer.Invariant.{unread, Inv, Post}
use go_sqlite.Sqlitefile.Buffer.Write.{WriteOutcome, write_appends}
use go_sqlite.Sqlitefile.Buffer.Read.{NoData, read_takes_front}
use go_sqlite.Sqlitefile.Buffer.Sizes.{fresh-Inv}
use go_sqlite.Sqlitefile.Buffer.Unread.{unread_byte-read_byte, unread_byte_refused}
use go_sqlite.Sqlitefile.Buffer.Failures.{IsShort, write_fails_behind_short_page}

-- Pages of 4 bytes.
abbrev start : Buffer memory
start = fresh memory 4 empty_table

start-Inv : Inv memory 4 start
start-Inv = fresh-Inv memory 4 empty_table (omega arith)

abbrev text : Bytes
text = 1 ∷ 2 ∷ 3 ∷ 4 ∷ 5 ∷ 6 ∷ 7 ∷ 8 ∷ 9 ∷ 10 ∷ 11 ∷ []

-- Three bytes in the write buffer.
abbrev three : Buffer memory
three = record start { wbuf = record { bytes = 1 ∷ 2 ∷ 3 ∷ []; spare = 0 ∷ [] } }

three_reached : write memory (1 ∷ 2 ∷ 3 ∷ []) start ≡ some ((3, ok tt), three)
unfolding write write_loop wbuf_ensure_space
three_reached = refl

three-Inv : Inv memory 4 three
three-Inv = record {
  no_error = refl;
  page_pos = omega arith;
  rbuf_cap = refl;
  wbuf_cap = refl;
  roff_le = omega arith;
  owned = start-Inv.owned;
}

-- What a Write left behind, or the buffer as it was where the fuel ran out.
abbrev after_write : Bytes → Buffer memory → Buffer memory
after_write p s = elim (write memory p s) [ none ↦ s | some r ↦ r.1 ]

-- Eleven bytes over pages of four: a page in memory, one in a blob, and three bytes behind it.
pages_used :
    (unread memory (after_write text start) ≡ text)
    × (length (after_write text start).blobs ≡ 1)
    × ((read memory 9 (after_write text start)).0 ≡ ok (1 ∷ 2 ∷ 3 ∷ 4 ∷ []))
    × ((read memory 9 (read memory 9 (after_write text start)).1).0 ≡ ok (5 ∷ 6 ∷ 7 ∷ 8 ∷ []))
unfolding write write_loop wbuf_ensure_space flush alloc alloc_new read rbuf_fill refill_from
    read_page free refill_from_wbuf
pages_used = (refl, refl, refl, refl)

-- After three bytes were written, one read, and four written: the read buffer holds three bytes.
abbrev short : Buffer memory
short = record start {
  rbuf = record { bytes = 1 ∷ 2 ∷ 3 ∷ []; spare = 0 ∷ [] };
  roff = 1;
  wbuf = record { bytes = 4 ∷ 5 ∷ 6 ∷ 7 ∷ []; spare = [] };
}

short_reached : after_write (4 ∷ 5 ∷ 6 ∷ 7 ∷ []) (read memory 1 three).1 ≡ short
unfolding write write_loop wbuf_ensure_space read rbuf_fill refill_from_wbuf
short_reached = refl

short-Inv : Inv memory 4 short
short-Inv = record {
  no_error = refl;
  page_pos = omega arith;
  rbuf_cap = refl;
  wbuf_cap = refl;
  roff_le = omega arith;
  owned = start-Inv.owned;
}

short-IsShort : IsShort memory memory_laws 4 short
short-IsShort = record {
  some_left = omega arith;
  partial = omega arith;
  none_free = refl;
  full = omega arith;
}

write_appends_example :
    (r : (ℕ × Result (Unit {0})) × Buffer memory) × (write memory text start ≡ some r)
    × WriteOutcome memory 4 start text 0 r
write_appends_example = write_appends memory memory_laws 4 text start start-Inv

read_takes_front_example :
    Post memory
      (λ out s'.
        (unread memory three ≡ out ++ unread memory s')
        × (length out ≤ 2)
        × (0 < 2 → 0 < length out)
        × Inv memory 4 s')
      (NoData memory memory_laws 4 three)
      (read memory 2 three)
read_takes_front_example = read_takes_front memory memory_laws 4 three three-Inv 2

unread_byte-read_byte_example :
    (s' : Buffer memory) × (unread_byte memory (read_byte memory three).1 ≡ (ok tt, s'))
    × (unread memory s' ≡ unread memory three)
unfolding read_byte rbuf_fill refill_from_wbuf
unread_byte-read_byte_example = unread_byte-read_byte memory memory_laws 4 1 three three-Inv refl

unread_byte_refused_example : unread_byte memory three ≡ (err no_byte_to_unread, three)
unread_byte_refused_example = unread_byte_refused memory 4 three three-Inv refl

abbrev failed : Buffer memory
failed = record three { error = some (sqlite 13) }

write_fails_behind_short_page_example :
    (e : Error) × (s' : Buffer memory) × (write memory (8 ∷ []) short ≡ some ((0, err e), s'))
    × (s'.error ≡ some e)
write_fails_behind_short_page_example =
    write_fails_behind_short_page memory memory_laws 4 8 [] short short-Inv short-IsShort
