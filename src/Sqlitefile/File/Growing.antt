-- ===== src/Sqlitefile/File/Growing.antt =====
-- A blob is added, and Write goes on in the next blob.
use go_sqlite.Base.{
  ◌≡◌, refl, ◌∙◌, ℕ, suc, ◌*◌, ◌-◌, ◌<◌, ◌==◌, none, some, Option, Option-cases, Bool-cases, [],
  ◌∷◌, length, replicate, arith, inl, inr,
}
use go_sqlite.Base.Bytes.{}
use go_sqlite.Errors.{Error}
use go_sqlite.Sqlitefile.File.{File, Faults, size_of, len_of, rem, grow, moved, move, next_blob}
use go_sqlite.Sqlitefile.File.Tape.{IsFull, sizes-suc, size_of-append}
use go_sqlite.Sqlitefile.File.Invariant.{
  contents, offset_of, Inv, grown, InBlob-grown, length-grown, IsFull-grown, start-grown,
  take-flat-grown,
}

-- A file that is the same to its user.
pub record SameFile (f f' : File) : Type 0 where
  pub same_bytes : contents f' ≡ contents f
  pub same_offset : offset_of f' ≡ offset_of f
  pub same_len : len_of f' ≡ len_of f

next_SameFile :
    (f : File) → Inv f → rem f.blobs f.off ≡ 0 → SameFile f (record f { off = next_blob f.off })
next_SameFile f v e = record {
  same_bytes = refl;
  same_offset = omega (arith, v.off_in.fits, sizes-suc f.off.index f.blobs, e);
  same_len = refl;
}

next_Inv :
    (f : File) → Inv f → suc f.off.index < length f.blobs → Inv (record f { off = next_blob f.off })
next_Inv f v lt = record {
  no_error = v.no_error;
  full = v.full;
  off_in = record { there = lt; fits = omega arith };
  len_in = v.len_in;
}

next_rem : (f : File) → Inv f → suc f.off.index < length f.blobs → 0 < rem f.blobs (next_blob f.off)
next_rem f v lt = omega (arith, v.full (suc f.off.index) lt)

abbrev pub grow_by : File → ℕ → File
grow_by f n = record f { blobs = grown f.blobs n }

pub grow_by-Inv : (f : File) (n : ℕ) → 0 < n → Inv f → Inv (grow_by f n)
grow_by-Inv f n more v = record {
  no_error = v.no_error;
  full = IsFull-grown f.blobs n more v.full;
  off_in = InBlob-grown f.blobs n f.off v.off_in;
  len_in = InBlob-grown f.blobs n f.len v.len_in;
}

pub grow_by-SameFile : (f : File) (n : ℕ) → Inv f → SameFile f (grow_by f n)
grow_by-SameFile f n v = record {
  same_bytes = take-flat-grown f.blobs n f.len v.len_in;
  same_offset = start-grown f.blobs n f.off v.off_in;
  same_len = start-grown f.blobs n f.len v.len_in;
}

pub SameFile-trans : {f g h : File} → SameFile f g → SameFile g h → SameFile f h
SameFile-trans a b = record {
  same_bytes = b.same_bytes ∙ a.same_bytes;
  same_offset = b.same_offset ∙ a.same_offset;
  same_len = b.same_len ∙ a.same_len;
}

module _ (S : Faults) where
  open S use {World, fault}

  -- What grow ends with.
  pub data GrowEnd (f : File) : Option Error × File × World → Type 0 where
    grew : {w : World} (n : ℕ) → 0 < n → GrowEnd f (none, grow_by f n, w)
    grow_failed : {w : World} (e : Error) → GrowEnd f (some e, f, w)

  pub grow-GrowEnd :
      (f : File) (w : World) → IsFull f.blobs → 0 < length f.blobs → GrowEnd f (grow S f w)
  unfolding grow
  grow-GrowEnd f w full some_blob = elim (Option-cases (fault w).0) [
    | inl q ↦ simp (q) (
        grew (size_of f.blobs (length f.blobs - 1) * 2)
          (omega (arith, full (length f.blobs - 1) (omega (arith, some_blob)))))
    | inr ((k, e), q) ↦ simp (q) (grow_failed e)
  ]

  -- What the choice of the blob in Write ends with.
  pub data MoveEnd (f : File) : Option Error × File × World → Type 0 where
    at_blob :
        {f' : File} {w : World}
        → Inv f'
        → 0 < rem f'.blobs f'.off
        → SameFile f f'
        → MoveEnd f (none, f', w)
    move_failed :
        {f' : File} {w : World} (e : Error)
        → f'.error ≡ some e
        → SameFile f f'
        → MoveEnd f (some e, f', w)

  next_MoveEnd :
      (f : File) (w : World)
      → Inv f
      → rem f.blobs f.off ≡ 0
      → suc f.off.index < length f.blobs
      → MoveEnd f (moved S (none, f, w))
  next_MoveEnd f w v e lt = at_blob (next_Inv f v lt) (next_rem f v lt) (next_SameFile f v e)

  grown_MoveEnd :
      (f : File)
      → Inv f
      → rem f.blobs f.off ≡ 0
      → f.off.index ≡ length f.blobs - 1
      → (r : Option Error × File × World) → GrowEnd f r
      → MoveEnd f (moved S r)
  grown_MoveEnd f v e last r (grew n more) =
      let v' = grow_by-Inv f n more v in
      let lt : suc f.off.index < length (grown f.blobs n) =
        omega (arith, v.off_in.there, last, length-grown f.blobs n) in
      let e' : rem (grown f.blobs n) f.off ≡ 0 =
        omega (arith, e, size_of-append f.blobs (replicate n 0 ∷ []) f.off.index v.off_in.there) in
      at_blob (next_Inv (grow_by f n) v' lt) (next_rem (grow_by f n) v' lt)
        (SameFile-trans (grow_by-SameFile f n v) (next_SameFile (grow_by f n) v' e'))
  grown_MoveEnd f v e last r (grow_failed x) =
      move_failed x refl (record { same_bytes = refl; same_offset = refl; same_len = refl })

  pub move-MoveEnd : (f : File) (w : World) → Inv f → MoveEnd f (move S f w)
  move-MoveEnd f w v = elim (Bool-cases (rem f.blobs f.off == 0)) [
    | inl e ↦ elim (Bool-cases (f.off.index == length f.blobs - 1)) [
      | inl l ↦
          simp (e, l)
            (grown_MoveEnd f v (ground arith) (ground arith) (grow S f w)
              (grow-GrowEnd f w v.full (omega (arith, v.off_in.there))))
      | inr l ↦ simp (e, l) (next_MoveEnd f w v (ground arith) (ground (arith, v.off_in.there)))
    ]
    | inr e ↦ simp (e) (
        at_blob v (ground arith)
          (record { same_bytes = refl; same_offset = refl; same_len = refl }))
  ]
