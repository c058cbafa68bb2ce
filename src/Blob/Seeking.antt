-- ===== src/Blob/Seeking.antt =====
-- Where Seek leaves the offset.
use go_sqlite.Base.{
  ◌≡◌, refl, ℕ, ◌≤◌, ◌<◌, Option, none, some, ltb, arith, tests, Bool-cases, inl, inr,
}
use go_sqlite.Base.Int.{ℤ, pos, negsuc}
use go_sqlite.Errors.{Error}
use go_sqlite.Blob.{Blob, Whence, from_whence, SeekEnd, seek_to, seek}

-- The target is in the blob, and becomes the offset; or the blob is left as it was, for a reason.
pub data Sought (b : Blob) (target : Option ℤ) : SeekEnd → Type 0 where
  moved :
      (n : ℕ) → target ≡ some (pos n) → n ≤ b.size → Sought b target (n, none, record b { off = n })
  stayed :
      {e : Error}
      → ((n : ℕ) → target ≡ some (pos n) → b.size < n)
      → Sought b target (b.off, some e, b)

seek_to-Sought : (b : Blob) (target : Option ℤ) → Sought b target (seek_to b target)
seek_to-Sought b none = stayed (λ n e. cc)
seek_to-Sought b (some (negsuc n)) = stayed (λ n e. cc)
seek_to-Sought b (some (pos n)) = elim (Bool-cases (ltb b.size n)) [
  | inl past ↦ rw past (stayed (λ m e. let q : n ≡ m = cc (e) in omega (tests, past, q)))
  | inr inside ↦ rw inside (moved n refl (ground arith))
]

-- Seek moves to the offset that is counted from the start, the current offset or the end, if it is from 0 to
-- the size, and returns it. Otherwise it returns an error with the old offset, and moves nothing.
pub seek-Sought :
    (b : Blob) (offset : ℤ) (whence : Whence)
    → Sought b (from_whence b offset whence) (seek b offset whence)
unfolding seek
seek-Sought b offset whence = seek_to-Sought b (from_whence b offset whence)
