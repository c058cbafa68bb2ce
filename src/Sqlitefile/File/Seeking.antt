-- ===== src/Sqlitefile/File/Seeking.antt =====
-- Where Seek leaves the position.
use go_sqlite.Base.{
  ◌≡◌, refl, sym, ap, ◌∙◌, ℕ, zero, suc, replicate, [], ◌∷◌, subst, ltb→lt, ◌+◌, ◌-◌, ◌≤◌, ◌<◌,
  ◌==◌, ltb, none, some, Option, Bool-cases, length, arith, inl, inr,
}
use go_sqlite.Base.Int.{ℤ, pos, negsuc}
use go_sqlite.Blob.{Whence}
use go_sqlite.Errors.{Error}
use go_sqlite.Sqlitefile.File.{
  File, Faults, returned, Method, size_of, sizes, len_of, cap_of, grow, grown_or, seek_loop,
  seek_from, seek_offset, seek,
}
use go_sqlite.Sqlitefile.File.Tape.{InBlob, IsFull, sizes-suc, sizes-append}
use go_sqlite.Sqlitefile.File.Invariant.{
  contents, offset_of, Inv, InBlob-grown, length-grown, IsFull-grown, start-grown, take-flat-grown,
}
use go_sqlite.Sqlitefile.File.Growing.{GrowEnd, grew, grow_failed, grow_by, grow-GrowEnd}

-- A file whose position is about to be set in a blob.
record At (f : File) (i : ℕ) : Type 0 where
  no_error : f.error ≡ none
  full : IsFull f.blobs
  there : i < length f.blobs
  index : f.off.index ≡ i
  len_in : InBlob f.blobs f.len

abbrev next : File → ℕ → File
next f i = record f { off = record f.off { index = suc i } }

-- The bytes and the length of a file are the same as another's.
pub record SameBytes (f f' : File) : Type 0 where
  pub bytes : contents f' ≡ contents f
  pub len : len_of f' ≡ len_of f

next-At : (f : File) (i : ℕ) → At f i → suc i < length f.blobs → At (next f i) (suc i)
next-At f i v lt = record {
  no_error = v.no_error;
  full = v.full;
  there = lt;
  index = refl;
  len_in = v.len_in;
}

grow_by-At :
    (f : File) (i n : ℕ)
    → 0 < n
    → At f i
    → suc i ≡ length f.blobs
    → At (grow_by (next f i) n) (suc i)
grow_by-At f i n more v last = record {
  no_error = v.no_error;
  full = IsFull-grown f.blobs n more v.full;
  there = omega (arith, last, length-grown f.blobs n);
  index = refl;
  len_in = InBlob-grown f.blobs n f.len v.len_in;
}

grow_by-SameBytes : (f : File) (i n : ℕ) → At f i → SameBytes f (grow_by (next f i) n)
grow_by-SameBytes f i n v = record {
  bytes = take-flat-grown f.blobs n f.len v.len_in;
  len = start-grown f.blobs n f.len v.len_in;
}

module _ (S : Faults) where
  open S use {World}

  -- What the loop of Seek for an offset of `n` ends with.
  data LoopEnd (f : File) (n : ℕ) : Method S ℤ → Type 0 where
    found :
        {f' : File} {w : World}
        → Inv f'
        → offset_of f' ≡ n
        → SameBytes f f'
        → LoopEnd f n (returned (pos n) none, f', w)
    stuck :
        {f' : File} {w : World} {e : Error} (k : ℕ)
        → k < n
        → k ≡ sizes (length f'.blobs) f'.blobs
        → f'.error ≡ none
        → f'.off.index ≡ length f'.blobs
        → SameBytes f f'
        → LoopEnd f n (returned (pos k) (some e), f', w)

  LoopEnd-SameBytes :
      (f g : File) (n : ℕ) (r : Method S ℤ) → SameBytes f g → LoopEnd g n r → LoopEnd f n r
  LoopEnd-SameBytes f g n r a (found v o b) =
      found v o (record { bytes = b.bytes ∙ a.bytes; len = b.len ∙ a.len })
  LoopEnd-SameBytes f g n r a (stuck k l x o i b) =
      stuck k l x o i (record { bytes = b.bytes ∙ a.bytes; len = b.len ∙ a.len })

  abbrev Again : ℕ → ℕ → Type 0
  Again fuel n =
      (i left : ℕ) (f : File) (w : World)
      → left < fuel
      → sizes i f.blobs + left ≡ n
      → At f i
      → LoopEnd f n (seek_loop S fuel i n left f w)

  grown-LoopEnd :
      (fuel n i left : ℕ) (f : File) (r : Option Error × File × World)
      → left < fuel
      → 0 < left
      → sizes (suc i) f.blobs + left ≡ n
      → At f i
      → suc i ≡ length f.blobs
      → Again fuel n
      → GrowEnd S (next f i) r
      → LoopEnd f n (grown_or S (seek_loop S fuel (suc i) n left) (pos (n - left)) r)
  grown-LoopEnd fuel n i left f r short more sum v last again (grew {w = w} k some_bytes) =
      LoopEnd-SameBytes f (grow_by (next f i) k) n _ (grow_by-SameBytes f i k v) (
        again (suc i) left (grow_by (next f i) k) w short
          (omega (
            arith,
            sum,
            sizes-append (suc i) f.blobs (replicate k 0 ∷ []) (omega (arith, v.there)),
          ))
          (grow_by-At f i k some_bytes v last))
  grown-LoopEnd fuel n i left f r short more sum v last again (grow_failed e) =
      let whole : sizes (suc i) f.blobs ≡ sizes (length f.blobs) f.blobs =
        ap (λ j. sizes j f.blobs) last in
      stuck (n - left) (omega (arith, sum, more)) (omega (arith, sum, whole)) v.no_error last
        (record { bytes = refl; len = refl })

  seek_loop-LoopEnd : (fuel n : ℕ) → Again fuel n
  unfolding seek_loop
  seek_loop-LoopEnd zero n i left f w short sum v = absurd (omega arith)
  seek_loop-LoopEnd (suc fuel) n i left f w short sum v =
      elim (Bool-cases (ltb (size_of f.blobs i) left)) [
        | inr e ↦ simp (e) (here (ground arith))
        | inl e ↦ elim (Bool-cases (i == length f.blobs - 1)) [
          | inl l ↦
              let lt = ltb→lt _ _ e in
              simp (e, l)
                (grown-LoopEnd fuel n i (left - size_of f.blobs i) f (grow S (next f i) w)
                  (omega (arith, short, lt, v.full i v.there)) (omega (arith, lt))
                  (omega (arith, sum, sizes-suc i f.blobs, lt)) v (ground (arith, l, v.there))
                  (λ j m g w' lt s u. seek_loop-LoopEnd fuel n j m g w' lt s u)
                  (grow-GrowEnd S (next f i) w v.full (omega (arith, v.there))))
          | inr l ↦
              let lt = ltb→lt _ _ e in
              simp (e, l)
                (LoopEnd-SameBytes f (next f i) n _ (record { bytes = refl; len = refl })
                  (seek_loop-LoopEnd fuel n (suc i) (left - size_of f.blobs i) (next f i) w
                    (omega (arith, short, lt, v.full i v.there))
                    (omega (arith, sum, sizes-suc i f.blobs, lt))
                    (next-At f i v (ground (arith, l, v.there)))))
        ]
      ]
    where
      here :
          left ≤ size_of f.blobs i
          → LoopEnd f n (
            returned (pos n) none,
            record f { off = record { index = f.off.index; offset = left } },
            w,
          )
      here le =
          let e : sizes f.off.index f.blobs ≡ sizes i f.blobs = ap (λ j. sizes j f.blobs) v.index in
          let z : size_of f.blobs f.off.index ≡ size_of f.blobs i = ap (size_of f.blobs) v.index in
          found
            (record {
              no_error = v.no_error;
              full = v.full;
              off_in = record {
                there = omega (arith, v.index, v.there);
                fits = omega (arith, le, z);
              };
              len_in = v.len_in;
            })
            (omega (arith, sum, e)) (record { bytes = refl; len = refl })

  -- What Seek ends with, for a target of an offset from the start. The position is at it, and the bytes of the
  -- file are the same; or the target is negative, and nothing is changed; or a blob that is needed was not
  -- added: then the offset returned is the capacity, and the position is behind the last blob.
  pub data SeekEnd (f : File) (w : World) (target : ℤ) : Method S ℤ → Type 0 where
    sought :
        {f' : File} {w' : World} (n : ℕ)
        → target ≡ pos n
        → Inv f'
        → offset_of f' ≡ n
        → SameBytes f f'
        → SeekEnd f w target (returned target none, f', w')
    before_start :
        {e : Error} (n : ℕ)
        → target ≡ negsuc n
        → SeekEnd f w target (returned (negsuc 0) (some e), f, w)
    not_grown :
        {f' : File} {w' : World} {e : Error} (n : ℕ)
        → target ≡ pos n
        → cap_of f' < n
        → f'.error ≡ none
        → f'.off.index ≡ length f'.blobs
        → SameBytes f f'
        → SeekEnd f w target (returned (pos (cap_of f')) (some e), f', w')

  from_loop :
      (f g : File) (w : World) (n : ℕ) (r : Method S ℤ)
      → SameBytes f g
      → LoopEnd g n r
      → SeekEnd f w (pos n) r
  from_loop f g w n r a (found v o b) =
      sought n refl v o (record { bytes = b.bytes ∙ a.bytes; len = b.len ∙ a.len })
  from_loop f g w n r a (stuck {f' = h} {w = w'} {e = e} k l x o i b) =
      subst (λ j. SeekEnd f w (pos n) (returned (pos j) (some e), h, w')) (sym x)
        (not_grown n refl (omega (arith, l, x)) o i
          (record { bytes = b.bytes ∙ a.bytes; len = b.len ∙ a.len }))

  seek_from-SeekEnd :
      (fuel : ℕ) (target : ℤ) (f : File) (w : World)
      → ((n : ℕ) → target ≡ pos n → n < fuel)
      → Inv f
      → SeekEnd f w target (seek_from S fuel target f w)
  seek_from-SeekEnd fuel (negsuc n) f w enough v = before_start n refl
  seek_from-SeekEnd fuel (pos n) f w enough v =
      from_loop f (record f { off = record f.off { index = 0 } }) w n _
        (record { bytes = refl; len = refl })
        (seek_loop-LoopEnd fuel n 0 n (record f { off = record f.off { index = 0 } }) w
          (enough n refl) (omega arith)
          (record {
            no_error = v.no_error;
            full = v.full;
            there = omega (arith, v.off_in.there);
            index = refl;
            len_in = v.len_in;
          }))

  pub seek-SeekEnd :
      (fuel : ℕ) (offset : ℤ) (whence : Whence) (f : File) (w : World)
      → ((n : ℕ) → seek_offset f offset whence ≡ pos n → n < fuel)
      → Inv f
      → SeekEnd f w (seek_offset f offset whence) (seek S fuel offset whence f w)
  unfolding seek
  seek-SeekEnd fuel offset whence f w enough v =
      simp (v.no_error) (seek_from-SeekEnd fuel (seek_offset f offset whence) f w enough v)
