-- ===== src/Sqlitefile/File/Chunk.antt =====
-- A chunk that Write puts into a blob, and the end of the file behind it.
use go_sqlite.Base.{
  ◌≡◌, ap, ◌∙◌, ℕ, ◌+◌, ◌≤◌, true, false, Bool-cases, List, [], length, get_or, set, take, arith,
  ◌⊎◌, inl, inr, if◌then◌else◌,
}
use go_sqlite.Base.Bytes.{splice, overwrite, take-splice}
use go_sqlite.Sqlitefile.File.{Bytes, File, size_of, len_of, gt, ahead}
use go_sqlite.Sqlitefile.File.Tape.{flat, start, InBlob, flat-set-splice, start-length-flat}
use go_sqlite.Sqlitefile.File.Positions.{gt-true, gt-false, not_FalselyEqual}
use go_sqlite.Sqlitefile.File.Invariant.{
  contents, offset_of, Inv, SameSizes, set-SameSizes, InBlob-SameSizes, IsFull-SameSizes,
}

abbrev pub blobs_after : File → Bytes → List Bytes
blobs_after f q = set f.blobs f.off.index (splice f.off.offset q (get_or f.blobs f.off.index []))

abbrev pub after : File → Bytes → File
after f q = record f {
  blobs = blobs_after f q;
  off = ahead f.off (length q);
  len =
      if gt (blobs_after f q) (ahead f.off (length q)) f.len then ahead f.off (length q) else f.len;
}

-- The bytes are put at the position, which moves behind them.
pub record Wrote (f : File) (q : Bytes) (f' : File) : Type 0 where
  pub inv : Inv f'
  pub offset : offset_of f' ≡ offset_of f + length q
  pub within : offset_of f' ≤ len_of f'
  pub bytes : contents f' ≡ overwrite (offset_of f) q (contents f)

pub after-Wrote :
    (f : File) (q : Bytes)
    → Inv f
    → offset_of f ≤ len_of f
    → f.off.offset + length q ≤ size_of f.blobs f.off.index
    → Wrote f q (after f q)
after-Wrote f q v le fits =
    by_end (Bool-cases (gt (blobs_after f q) (ahead f.off (length q)) f.len))
  where
    same : SameSizes f.blobs (blobs_after f q)
    same = set-SameSizes f.blobs f.off.index f.off.offset q

    off_in : InBlob (blobs_after f q) (ahead f.off (length q))
    off_in = record {
      there = omega (arith, same.same_length, v.off_in.there);
      fits = omega (arith, same.same_size f.off.index, fits);
    }

    len_in : InBlob (blobs_after f q) f.len
    len_in = InBlob-SameSizes f.len same v.len_in

    moved_by : start (blobs_after f q) (ahead f.off (length q)) ≡ offset_of f + length q
    moved_by = omega (arith, same.same_start f.off.index)

    end_at : start (blobs_after f q) f.len ≡ len_of f
    end_at = omega (arith, same.same_start f.len.index)

    bytes_to :
        (m : ℕ)
        → len_of f ≤ m
        → offset_of f + length q ≤ m
        → (m ≡ len_of f) ⊎ (m ≡ offset_of f + length q)
        → take m (flat (blobs_after f q)) ≡ overwrite (offset_of f) q (contents f)
    bytes_to m a b e =
        ap (take m) (flat-set-splice f.blobs f.off.index f.off.offset q v.off_in.there fits)
        ∙ take-splice m (len_of f) (offset_of f) q (flat f.blobs) le
            (omega (
              arith,
              start-length-flat f.blobs (ahead f.off (length q))
                  (record { there = v.off_in.there; fits = fits }),
            ))
            a b e

    by_end :
        (gt (blobs_after f q) (ahead f.off (length q)) f.len ≡ true)
          ⊎ (gt (blobs_after f q) (ahead f.off (length q)) f.len ≡ false)
        → Wrote f q (after f q)
    by_end (inl e) =
        let far : start (blobs_after f q) f.len ≤ start (blobs_after f q) (ahead f.off (length q)) =
          gt-true (blobs_after f q) (ahead f.off (length q)) f.len len_in e in
        simp (e) (record {
          inv = record {
            no_error = v.no_error;
            full = IsFull-SameSizes same v.full;
            off_in = off_in;
            len_in = off_in;
          };
          offset = moved_by;
          within = omega arith;
          bytes =
              bytes_to (start (blobs_after f q) (ahead f.off (length q)))
                (omega (arith, far, end_at)) (omega (arith, moved_by)) (inr moved_by);
        })
    by_end (inr e) =
        let near : start (blobs_after f q) (ahead f.off (length q))
            ≤ start (blobs_after f q) f.len =
          gt-false (blobs_after f q) (ahead f.off (length q)) f.len (IsFull-SameSizes same v.full)
            off_in len_in
            (not_FalselyEqual (blobs_after f q) (ahead f.off (length q)) f.len
              (IsFull-SameSizes same v.full) len_in
              (omega (arith, le, end_at, same.same_start f.off.index)))
            e in
        simp (e) (record {
          inv = record {
            no_error = v.no_error;
            full = IsFull-SameSizes same v.full;
            off_in = off_in;
            len_in = len_in;
          };
          offset = moved_by;
          within = near;
          bytes =
              bytes_to (start (blobs_after f q) f.len) (omega (arith, end_at))
                (omega (arith, near, moved_by)) (inl end_at);
        })
