-- ===== src/Sqlitefile/File/Gaps.antt =====
-- Write behind the end of a file, where the zeros of the gap are written first.
use go_sqlite.Base.{
  ◌≡◌, refl, ap, ℕ, zero, suc, get_elem?, ◌+◌, ◌<◌, ◌==◌, min, leb, true, false, none, some, List,
  [], length, get_or, set, take, replicate, length-replicate, arith,
}
use go_sqlite.Base.Bytes.{splice}
use go_sqlite.Sqlitefile.File.{
  Bytes, Position, File, Faults, returned, Method, size_of, gt, eq, rem, beyond_blob, put_at,
  whole_chunks, zero_fill, write,
}
use go_sqlite.Sqlitefile.File.Tape.{get_elem?-get_or}
use go_sqlite.Sqlitefile.File.Invariant.{Inv}

-- The position is behind the end in the same blob, but the zeros that are written from the end on, as many as
-- the offset of the position, go behind the blob.
pub record ShortOf (f : File) : Type 0 where
  pub same_blob : f.off.index ≡ f.len.index
  pub behind : f.len.offset < f.off.offset
  pub no_room : size_of f.blobs f.len.index < f.len.offset + min 4096 f.off.offset

module _ (S : Faults) where
  open S use {World, fault}

  later-gt :
      (bs : List Bytes) (p q : Position)
      → p.index ≡ q.index
      → q.offset < p.offset
      → gt bs p q ≡ true
  unfolding gt eq
  later-gt bs p q e lt = ground (arith, e, lt)

  put_fails :
      (bs : List Bytes) (p : Position) (n : ℕ) (w : World)
      → p.index < length bs
      → (fault w).0 ≡ none
      → size_of bs p.index < p.offset + n
      → (k : ℕ) × (cs : List Bytes) × (put_at S bs p (replicate n 0) w (get_elem? bs p.index)
          ≡ (some (k, some beyond_blob, cs), (fault w).1))
  put_fails bs p n w lt calm short =
      let e : leb (p.offset + length (replicate {A = ℕ} n 0)) (size_of bs p.index) ≡ false =
        ground (arith, short, length-replicate {A = ℕ} n 0) in
      let b = get_or bs p.index [] in
      let k = whole_chunks b p.offset in
      (
        k,
        set bs p.index (splice p.offset (take k (replicate n 0)) b),
        simp (get_elem?-get_or bs p.index lt, calm, e) refl,
      )

  zero_fails :
      (fuel : ℕ) (f : File) (w : World)
      → Inv f
      → ShortOf f
      → (fault w).0 ≡ none
      → (cs : List Bytes) × (zero_fill S (suc fuel) f.blobs f.len f.off w
          ≡ (returned tt (some beyond_blob), cs, (fault w).1))
  unfolding zero_fill
  zero_fails fuel f w v h calm =
      let later = later-gt f.blobs f.off f.len h.same_blob h.behind in
      let z : size_of f.blobs f.off.index ≡ size_of f.blobs f.len.index =
        ap (size_of f.blobs) h.same_blob in
      let room : (rem f.blobs f.len == 0) ≡ false = ground (arith, h.behind, v.off_in.fits, z) in
      let same : (f.len.index == f.off.index) ≡ true = ground (arith, h.same_blob) in
      let (k, cs, e) =
        put_fails f.blobs f.len (min 4096 f.off.offset) w v.len_in.there calm h.no_room in
      (cs, simp (later, room) (simp (same) (simp (e) refl)))

  -- What Write ends with, where it fails: no byte, and the error, which the file keeps.
  pub record Refused (r : Method S ℕ) : Type 0 where
    pub none_written : r.0 ≡ returned 0 (some beyond_blob)
    pub kept : r.1.error ≡ some beyond_blob

  -- Write at a position that is behind the end of the file in the same blob fails with the error of
  -- SQLite, though all of the gap is in the blob, where the blob has no room for the number of zeros
  -- that the offset of the position in the blob says, counted from the end of the file. Conditions: the
  -- file is well-formed, the fuel is not 0, and the call itself does not fail.
  pub write-Refused :
      (fuel : ℕ) (p : Bytes) (f : File) (w : World)
      → 0 < fuel
      → Inv f
      → ShortOf f
      → (fault w).0 ≡ none
      → Refused (write S fuel p f w)
  unfolding write
  write-Refused zero p f w more v h calm = absurd (omega arith)
  write-Refused (suc fuel) p f w more v h calm =
      let later = later-gt f.blobs f.off f.len h.same_blob h.behind in
      let (cs, e) = zero_fails fuel f w v h calm in
      simp (v.no_error, later) (simp (e) (record { none_written = refl; kept = refl }))
