-- ===== src/Sqlitefile/File/Tests.antt =====
-- Files of two small blobs, and the theorems on them.
use go_sqlite.Base.{◌≡◌, refl, ℕ, zero, suc, ◌<◌, false, none, some, Option, List, [], ◌∷◌, arith}
use go_sqlite.Base.Int.{pos}
use go_sqlite.Blob.{seek_start}
use go_sqlite.Errors.{Error}
use go_sqlite.Sqlitefile.File.{
  Bytes, Position, File, Faults, returned, len_of, gt, write, read, seek, truncate, new_file_size,
  eof, eq, write_loop, seek_loop,
}
use go_sqlite.Sqlitefile.File.Tape.{IsFull}
use go_sqlite.Sqlitefile.File.Positions.{FalselyEqual}
use go_sqlite.Sqlitefile.File.Invariant.{contents, offset_of, Inv}
use go_sqlite.Sqlitefile.File.Writing.{FileWritten, write-FileWritten}
use go_sqlite.Sqlitefile.File.Reading.{FileRead, read-FileRead, read-eof_before_end}
use go_sqlite.Sqlitefile.File.Truncating.{truncate_cuts, truncate_behind_capacity, end_at}
use go_sqlite.Sqlitefile.File.RoundTrip.{ReadsBack, written-ReadsBack}
use go_sqlite.Sqlitefile.File.Gaps.{Refused, write-Refused}
use go_sqlite.Sqlitefile.File.Creating.{Made, new_file_size-Made}

-- The calls fail as a list of outcomes says, and none fails behind its end.
abbrev next_outcome : List (Option (ℕ × Error)) → Option (ℕ × Error) × List (Option (ℕ × Error))
next_outcome [] = (none, [])
next_outcome (x ∷ xs) = (x, xs)

abbrev listed : Faults
listed = record { World = List (Option (ℕ × Error)); fault = next_outcome }

abbrev two : List Bytes
two = (1 ∷ 2 ∷ 3 ∷ 4 ∷ []) ∷ (5 ∷ 6 ∷ 7 ∷ 8 ∷ 9 ∷ 10 ∷ 0 ∷ 0 ∷ []) ∷ []

abbrev file_at : Position → Position → File
file_at p q = record { error = none; blobs = two; off = p; len = q }

abbrev place : ℕ → ℕ → Position
place i n = record { index = i; offset = n }

abbrev ten : File
ten = file_at (place 0 2) (place 1 6)

two-IsFull : IsFull two
two-IsFull zero lt = omega arith
two-IsFull (suc zero) lt = omega arith
two-IsFull (suc (suc i)) lt = absurd (omega arith)

ten-Inv : Inv ten
ten-Inv = record {
  no_error = refl;
  full = two-IsFull;
  off_in = record { there = omega arith; fits = omega arith };
  len_in = record { there = omega arith; fits = omega arith };
}

-- The end of the file is the end of the blobs, and the position the start.
abbrev whole_file : File
whole_file = file_at (place 0 0) (place 1 8)

whole_file-Inv : Inv whole_file
whole_file-Inv = record {
  no_error = refl;
  full = two-IsFull;
  off_in = record { there = omega arith; fits = omega arith };
  len_in = record { there = omega arith; fits = omega arith };
}

ten_apart : ¬ FalselyEqual two (place 1 6) (place 0 2)
ten_apart h = omega (arith, h.at_start)

abbrev p12 : Bytes
p12 = 20 ∷ 21 ∷ 22 ∷ 23 ∷ 24 ∷ 25 ∷ 26 ∷ 27 ∷ 28 ∷ 29 ∷ 30 ∷ 31 ∷ []

ten-not_behind : gt two (place 0 2) (place 1 6) ≡ false
unfolding gt eq
ten-not_behind = refl

write-FileWritten_example : FileWritten listed ten p12 0 (write listed 12 p12 ten [])
write-FileWritten_example =
    write-FileWritten listed 12 p12 ten [] (omega arith) ten-Inv ten-not_behind (omega arith)

read-FileRead_example : FileRead listed ten 5 (read listed 6 5 ten [])
read-FileRead_example =
    read-FileRead listed 6 5 ten [] (omega arith) (omega arith) ten-Inv ten_apart

read-eof_before_end_example :
    (offset_of whole_file < len_of whole_file)
    × (read listed 6 5 whole_file [] ≡ (returned [] (some eof), whole_file, []))
read-eof_before_end_example =
    read-eof_before_end listed 6 5 whole_file [] whole_file-Inv
      (record { follows = refl; at_end = refl; at_start = refl })

truncate_cuts_example :
    (p : Position) × (truncate listed 1 7 ten [] ≡ (returned tt none, end_at ten p, []))
    × (contents (end_at ten p) ≡ 1 ∷ 2 ∷ 3 ∷ 4 ∷ 5 ∷ 6 ∷ 7 ∷ [])
    × (len_of (end_at ten p) ≡ 7)
    × Inv (end_at ten p)
truncate_cuts_example = truncate_cuts listed 0 7 ten [] ten-Inv (omega arith)

truncate_behind_capacity_example :
    (f' : File) × (truncate listed 2 15 ten [] ≡ (returned tt none, f', []))
    × (contents f' ≡ 1 ∷ 2 ∷ 3 ∷ [])
    × (len_of f' ≡ 3)
truncate_behind_capacity_example =
    truncate_behind_capacity listed 0 15 ten [] ten-Inv (omega arith) (omega arith) refl

new_file_size-Made_example : Made listed 4 (new_file_size listed 4 [])
new_file_size-Made_example = new_file_size-Made listed 4 [] (omega arith)

-- The file behind a write of two bytes, and behind the seek back.
abbrev written : File
written = record {
  error = none;
  blobs = (1 ∷ 2 ∷ 20 ∷ 21 ∷ []) ∷ (5 ∷ 6 ∷ 7 ∷ 8 ∷ 9 ∷ 10 ∷ 0 ∷ 0 ∷ []) ∷ [];
  off = place 0 4;
  len = place 1 6;
}

abbrev back : File
back = record written { off = place 0 2 }

wrote_two : write listed 5 (20 ∷ 21 ∷ []) ten [] ≡ (returned 2 none, written, [])
unfolding write write_loop gt eq
wrote_two = refl

sought_back : seek listed 5 (pos 2) seek_start written [] ≡ (returned (pos 2) none, back, [])
unfolding seek seek_loop
sought_back = refl

written-ReadsBack_example : ReadsBack listed (20 ∷ 21 ∷ []) (read listed 5 2 back [])
written-ReadsBack_example =
    written-ReadsBack listed 5 (20 ∷ 21 ∷ []) ten written back 2 (pos 2) [] [] [] (omega arith)
      (omega arith) (omega arith) ten-Inv ten-not_behind (omega arith) wrote_two sought_back
      (λ h. omega (arith, h.at_start))

-- A gap of one byte, for which seven zeros are written where the blob has room for two.
abbrev gap : File
gap = file_at (place 1 7) (place 1 6)

gap-Inv : Inv gap
gap-Inv = record {
  no_error = refl;
  full = two-IsFull;
  off_in = record { there = omega arith; fits = omega arith };
  len_in = record { there = omega arith; fits = omega arith };
}

write-Refused_example : Refused listed (write listed 5 (20 ∷ []) gap [])
write-Refused_example =
    write-Refused listed 5 (20 ∷ []) gap [] (omega arith) gap-Inv
      (record { same_blob = refl; behind = omega arith; no_room = omega arith }) refl
