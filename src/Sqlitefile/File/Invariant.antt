-- ===== src/Sqlitefile/File/Invariant.antt =====
-- What a File holds: its bytes and its position, and when it is well formed.
use go_sqlite.Base.{
  ◌≡◌, refl, ap, ℕ, zero, suc, ◌+◌, ◌≤◌, ◌<◌, none, List, [], ◌∷◌, ◌++◌, length, get_or, set, take,
  replicate, length-append, length-replicate, arith, ◌⊎◌, inl, inr,
}
use go_sqlite.Base.Bytes.{splice, length-splice}
use go_sqlite.Sqlitefile.File.{Bytes, Position, File, size_of, sizes, len_of}
use go_sqlite.Sqlitefile.File.Tape.{
  flat, start, IsFull, InBlob, length-set, size_of-set, sizes-set, size_of-append, size_of_new,
  sizes-append, flat-append, start-length-flat,
}

-- The bytes of the file, and how many of them are before the position that Read and Write go on from.
abbrev pub contents : File → Bytes
contents f = take (len_of f) (flat f.blobs)

abbrev pub offset_of : File → ℕ
offset_of f = start f.blobs f.off

-- No error, no empty blob, and both positions in a blob.
pub record Inv (f : File) : Type 0 where
  pub no_error : f.error ≡ none
  pub full : IsFull f.blobs
  pub off_in : InBlob f.blobs f.off
  pub len_in : InBlob f.blobs f.len

-- Blobs of the same sizes, as a write leaves them.
pub record SameSizes (bs cs : List Bytes) : Type 0 where
  pub same_length : length cs ≡ length bs
  pub same_size : (i : ℕ) → size_of cs i ≡ size_of bs i
  pub same_start : (i : ℕ) → sizes i cs ≡ sizes i bs

pub set-SameSizes :
    (bs : List Bytes) (i n : ℕ) (q : Bytes) → SameSizes bs (set bs i (splice n q (get_or bs i [])))
set-SameSizes bs i n q = record {
  same_length = length-set bs i (splice n q (get_or bs i []));
  same_size =
      λ j. size_of-set bs i j (splice n q (get_or bs i [])) (length-splice n q (get_or bs i []));
  same_start =
      λ j. sizes-set bs i j (splice n q (get_or bs i [])) (length-splice n q (get_or bs i []));
}

pub InBlob-SameSizes :
    {bs cs : List Bytes} (p : Position) → SameSizes bs cs → InBlob bs p → InBlob cs p
InBlob-SameSizes p same v = record {
  there = omega (arith, same.same_length, v.there);
  fits = omega (arith, same.same_size p.index, v.fits);
}

pub IsFull-SameSizes : {bs cs : List Bytes} → SameSizes bs cs → IsFull bs → IsFull cs
IsFull-SameSizes same full i lt =
    omega (arith, same.same_size i, full i (omega (arith, same.same_length, lt)))

-- Blobs with one more behind them, as grow leaves them.
abbrev pub grown : List Bytes → ℕ → List Bytes
grown bs n = bs ++ replicate n 0 ∷ []

pub InBlob-grown : (bs : List Bytes) (n : ℕ) (p : Position) → InBlob bs p → InBlob (grown bs n) p
InBlob-grown bs n p v = record {
  there = omega (arith, length-append bs (replicate n 0 ∷ []), v.there);
  fits = omega (arith, size_of-append bs (replicate n 0 ∷ []) p.index v.there, v.fits);
}

pub length-grown : (bs : List Bytes) (n : ℕ) → length (grown bs n) ≡ suc (length bs)
length-grown bs n = omega (arith, length-append bs (replicate n 0 ∷ []))

pub IsFull-grown : (bs : List Bytes) (n : ℕ) → 0 < n → IsFull bs → IsFull (grown bs n)
IsFull-grown bs n more full i lt = by_place (ltb_or i (length bs))
  where
    ltb_or : (i k : ℕ) → (i < k) ⊎ (k ≤ i)
    ltb_or i k = ground arith

    by_place : (i < length bs) ⊎ (length bs ≤ i) → 0 < size_of (grown bs n) i
    by_place (inl h) = omega (arith, size_of-append bs (replicate n 0 ∷ []) i h, full i h)
    by_place (inr h) = omega (
      arith,
      size_of_new bs (replicate n 0) i (omega (arith, h, lt, length-grown bs n)),
      length-replicate {A = ℕ} n 0,
      more,
    )

pub start-grown :
    (bs : List Bytes) (n : ℕ) (p : Position) → InBlob bs p → start (grown bs n) p ≡ start bs p
start-grown bs n p v =
    ap (λ k. k + p.offset) (sizes-append p.index bs (replicate n 0 ∷ []) (omega (arith, v.there)))

pub take-append : (k : ℕ) (xs ys : Bytes) → k ≤ length xs → take k (xs ++ ys) ≡ take k xs
take-append zero xs ys le = refl
take-append (suc k) [] ys le = absurd (omega arith)
take-append (suc k) (x ∷ xs) ys le = ap (◌∷◌ x) (take-append k xs ys (omega arith))

-- A blob more does not change what stands in the file.
pub take-flat-grown :
    (bs : List Bytes) (n : ℕ) (p : Position)
    → InBlob bs p
    → take (start (grown bs n) p) (flat (grown bs n)) ≡ take (start bs p) (flat bs)
take-flat-grown bs n p v =
    rw (start-grown bs n p v, flat-append bs (replicate n 0 ∷ []))
      (take-append (start bs p) (flat bs) (flat (replicate n 0 ∷ [])) (start-length-flat bs p v))
