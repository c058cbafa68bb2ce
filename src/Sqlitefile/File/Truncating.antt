-- ===== src/Sqlitefile/File/Truncating.antt =====
-- What Truncate leaves of a file.
use go_sqlite.Base.{
  ◌≡◌, refl, ap, ◌∙◌, ℕ, zero, suc, ◌+◌, ◌*◌, ◌-◌, ◌≤◌, ◌<◌, ltb, ltb→lt, false, none, Bool-cases,
  List, [], ◌∷◌, length, take, arith, inl, inr,
}
use go_sqlite.Sqlitefile.File.{
  Bytes, Position, File, Faults, returned, inside, left_over, fit, size_of, sizes, len_of, cap_of,
  gt, grow, zero_fill, truncate,
}
use go_sqlite.Sqlitefile.File.Tape.{flat, start, sizes-suc, sizes_le}
use go_sqlite.Sqlitefile.File.Positions.{gt-true}
use go_sqlite.Sqlitefile.File.Invariant.{contents, Inv}
use go_sqlite.Sqlitefile.File.Growing.{grow_by, grow_by-Inv, grow_by-SameFile}

-- A position in the blobs that has `size` bytes before it, and one behind it, where blobs count from `i`.
record Fits (i size : ℕ) (bs : List Bytes) (p : Position) : Type 0 where
  place : ℕ
  counted : p.index ≡ i + place
  there : place < length bs
  before : sizes place bs + p.offset ≡ size
  more : p.offset < size_of bs place

fit-Fits :
    (i size : ℕ) (bs : List Bytes)
    → size < sizes (length bs) bs
    → (p : Position) × (fit i size bs ≡ inside p) × Fits i size bs p
fit-Fits i size [] lt = absurd (omega arith)
fit-Fits i size (b ∷ bs) lt = elim (Bool-cases (ltb size (length b))) [
  | inl e ↦ (
    record { index = i; offset = size },
    simp (e) refl,
    record {
      place = 0;
      counted = omega arith;
      there = omega arith;
      before = omega arith;
      more = ltb→lt _ _ e;
    },
  )
  | inr e ↦
      let le : length b ≤ size = ground arith in
      let (p, q, h) = fit-Fits (suc i) (size - length b) bs (omega (arith, le, lt)) in
      (
        p,
        simp (e) q,
        record {
          place = suc h.place;
          counted = omega (arith, h.counted);
          there = omega (arith, h.there);
          before = omega (arith, h.before, le);
          more = h.more;
        },
      )
]

fit-left_over :
    (i size : ℕ) (bs : List Bytes)
    → sizes (length bs) bs ≤ size
    → fit i size bs ≡ left_over (size - sizes (length bs) bs)
fit-left_over i size [] le = ap left_over (omega arith)
fit-left_over i size (b ∷ bs) le = elim (Bool-cases (ltb size (length b))) [
  | inl e ↦ let lt = ltb→lt _ _ e in absurd (omega (arith, lt, le))
  | inr e ↦
      simp (e) (
        fit-left_over (suc i) (size - length b) bs (omega (arith, le)) ∙ ap left_over (omega arith))
]

take-take : (m n : ℕ) (xs : Bytes) → m ≤ n → take m xs ≡ take m (take n xs)
take-take zero n xs le = refl
take-take (suc m) zero xs le = absurd (omega arith)
take-take (suc m) (suc n) [] le = refl
take-take (suc m) (suc n) (x ∷ xs) le = ap (◌∷◌ x) (take-take m n xs (omega arith))

-- The end of the file at a position, and nothing else of it changed.
abbrev pub end_at : File → Position → File
end_at f p = record f { len = p }

len_of-cap_of : (f : File) → Inv f → len_of f ≤ cap_of f
len_of-cap_of f v = omega (
  arith,
  v.len_in.fits,
  sizes-suc f.len.index f.blobs,
  sizes_le (suc f.len.index) (length f.blobs) f.blobs (omega (arith, v.len_in.there)),
)

module _ (S : Faults) where
  open S use {World, fault}

  no_gap :
      (fuel : ℕ) (bs : List Bytes) (p q : Position) (w : World)
      → gt bs q p ≡ false
      → zero_fill S fuel bs p q w ≡ (returned tt none, bs, w)
  unfolding zero_fill
  no_gap zero bs p q w e = simp (e) refl
  no_gap (suc fuel) bs p q w e = simp (e) refl

  -- Truncate of a well-formed file to a size below its length returns with no error, and the file has
  -- the first bytes of what it had, as many as the size; nothing else of it changes.
  pub truncate_cuts :
      (fuel size : ℕ) (f : File) (w : World)
      → Inv f
      → size < len_of f
      → (p : Position) × (truncate S (suc fuel) size f w ≡ (returned tt none, end_at f p, w))
        × (contents (end_at f p) ≡ take size (contents f))
        × (len_of (end_at f p) ≡ size)
        × Inv (end_at f p)
  unfolding truncate
  truncate_cuts fuel size f w v lt =
      let (p, e, h) = fit-Fits 0 size f.blobs (omega (arith, lt, len_of-cap_of f v)) in
      by_place p h (simp (e) (simp (no_gap fuel f.blobs f.len p w (not_later p h)) refl))
    where
      at : (p : Position) → Fits 0 size f.blobs p → start f.blobs p ≡ size
      at p h =
          let c : p.index ≡ h.place = omega (arith, h.counted) in
          let e : sizes p.index f.blobs ≡ sizes h.place f.blobs = ap (λ i. sizes i f.blobs) c in
          omega (arith, e, h.before)

      not_later : (p : Position) → Fits 0 size f.blobs p → gt f.blobs p f.len ≡ false
      not_later p h = elim (Bool-cases (gt f.blobs p f.len)) [
        | inl e ↦
            let le = gt-true f.blobs p f.len v.len_in e in absurd (omega (arith, le, at p h, lt))
        | inr e ↦ e
      ]

      by_place :
          (p : Position)
          → Fits 0 size f.blobs p
          → truncate S (suc fuel) size f w ≡ (returned tt none, end_at f p, w)
          → (p : Position) × (truncate S (suc fuel) size f w ≡ (returned tt none, end_at f p, w))
            × (contents (end_at f p) ≡ take size (contents f))
            × (len_of (end_at f p) ≡ size)
            × Inv (end_at f p)
      by_place p h run =
          let c : p.index ≡ h.place = omega (arith, h.counted) in
          let z : size_of f.blobs p.index ≡ size_of f.blobs h.place = ap (size_of f.blobs) c in
          (
            p,
            run,
            ap (λ n. take n (flat f.blobs)) (at p h)
                ∙ take-take size (len_of f) (flat f.blobs) (omega (arith, lt)),
            at p h,
            record {
              no_error = v.no_error;
              full = v.full;
              off_in = v.off_in;
              len_in = record {
                there = omega (arith, h.there, c);
                fits = omega (arith, h.more, z);
              };
            },
          )

  -- Truncate to a size from the capacity on, less than the length of the file above it, does not extend
  -- the file: it adds a blob and then cuts the file to what the size is more than the capacity was.
  -- Conditions: the file is well-formed, and the call that adds the blob does not fail.
  pub truncate_behind_capacity :
      (fuel size : ℕ) (f : File) (w : World)
      → Inv f
      → cap_of f ≤ size
      → size - cap_of f < len_of f
      → (fault w).0 ≡ none
      → (f' : File) × (truncate S (suc (suc fuel)) size f w ≡ (returned tt none, f', (fault w).1))
        × (contents f' ≡ take (size - cap_of f) (contents f))
        × (len_of f' ≡ size - cap_of f)
  unfolding truncate grow
  truncate_behind_capacity fuel size f w v le lt calm =
      let k = size_of f.blobs (length f.blobs - 1) * 2 in
      let more : 0 < k =
        omega
          (arith, v.off_in.there, v.full (length f.blobs - 1) (omega (arith, v.off_in.there))) in
      let g = grow_by f k in
      let same = grow_by-SameFile f k v in
      let (p, run, bytes, len, _) =
        truncate_cuts fuel (size - cap_of f) g (fault w).1 (grow_by-Inv f k more v)
          (omega (arith, lt, same.same_len)) in
      (
        end_at g p,
        simp (fit-left_over 0 size f.blobs le) (simp (calm) run),
        bytes ∙ ap (take (size - cap_of f)) same.same_bytes,
        len,
      )
