-- ===== src/Sqlitefile/Slice.antt =====
-- A Go byte slice that starts at the start of its array, as buffer.go uses `rbuf` and `wbuf`.
use go_sqlite.Base.{
  ℕ, ◌+◌, ◌≤◌, ◌≡◌, [], ◌++◌, arith, length, drop, replicate, length-append, length-drop,
  length-replicate,
}
use go_sqlite.Sqlitefile.Blobs.{Bytes}

pub record Slice : Type 0 where
  pub bytes : Bytes
  -- The bytes of the array behind the slice, which a longer slice of it would show.
  pub spare : Bytes

-- cap(s)
abbrev pub cap_of : Slice → ℕ
cap_of s = length s.bytes + length s.spare

-- make([]byte, 0, n)
abbrev pub make : ℕ → Slice
make n = record { bytes = []; spare = replicate n 0 }

-- s[:0]
abbrev pub clear : Slice → Slice
clear s = record { bytes = []; spare = s.bytes ++ s.spare }

-- s[:cap(s)]
abbrev pub extend : Slice → Slice
extend s = record { bytes = s.bytes ++ s.spare; spare = [] }

-- append(s, p...), for a p that fits
abbrev pub append_bytes : Slice → Bytes → Slice
append_bytes s p = record { bytes = s.bytes ++ p; spare = drop (length p) s.spare }

-- copy(s, p), for a p that is not longer than s
abbrev pub overwrite : Slice → Bytes → Slice
overwrite s p = record s { bytes = p ++ drop (length p) s.bytes }

pub cap_of-make : (n : ℕ) → cap_of (make n) ≡ n
cap_of-make n = omega (arith, length-replicate {A = ℕ} n 0)

pub cap_of-clear : (s : Slice) → cap_of (clear s) ≡ cap_of s
cap_of-clear s = omega (arith, length-append s.bytes s.spare)

pub cap_of-extend : (s : Slice) → cap_of (extend s) ≡ cap_of s
cap_of-extend s = omega (arith, length-append s.bytes s.spare)

pub cap_of-append_bytes :
    (s : Slice) (p : Bytes)
    → length s.bytes + length p ≤ cap_of s
    → cap_of (append_bytes s p) ≡ cap_of s
cap_of-append_bytes s p h = omega (arith, length-append s.bytes p, length-drop (length p) s.spare)
