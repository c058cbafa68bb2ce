-- ===== src/Sqlitefile/File/Writing.antt =====
-- What Write does to the bytes of a file, where the position is not behind the end.
use go_sqlite.Base.{
  ◌≡◌, refl, sym, ap, ap₂, ◌∙◌, ℕ, zero, suc, ◌+◌, ◌≤◌, ◌<◌, min, false, none, some, Option,
  Option-cases, [], ◌∷◌, ◌++◌, length, get_or, take, drop, length-append, length-take, length-drop,
  take-append-drop, append_assoc, arith, le→leb, inl, inr,
}
use go_sqlite.Base.Bytes.{overwrite, overwrite-nil, overwrite-overwrite}
use go_sqlite.Errors.{Error}
use go_sqlite.Sqlitefile.File.{
  Bytes, File, Faults, returned, Method, size_of, len_of, gt, rem, move, wrote, write_chunk,
  write_loop, write, put_at,
}
use go_sqlite.Sqlitefile.File.Tape.{flat, get_elem?-get_or, start-length-flat}
use go_sqlite.Sqlitefile.File.Invariant.{contents, offset_of, Inv}
use go_sqlite.Sqlitefile.File.Chunk.{after, Wrote, after-Wrote}
use go_sqlite.Sqlitefile.File.Growing.{SameFile, MoveEnd, at_blob, move_failed, move-MoveEnd}

module _ (S : Faults) where
  open S use {World, fault}

  -- What Write of `p` ends with, behind `done` bytes: all of `p` stands at the position, or a first part of it,
  -- with an error that the file keeps. The position is behind what was written.
  pub data FileWritten (f : File) (p : Bytes) (done : ℕ) : Method S ℕ → Type 0 where
    wrote_all :
        {n : ℕ} {f' : File} {w' : World}
        → n ≡ done + length p
        → Inv f'
        → contents f' ≡ overwrite (offset_of f) p (contents f)
        → offset_of f' ≡ offset_of f + length p
        → offset_of f' ≤ len_of f'
        → FileWritten f p done (returned n none, f', w')
    wrote_some :
        {n : ℕ} {f' : File} {w' : World} {e : Error} (q rest : Bytes)
        → q ++ rest ≡ p
        → n ≡ done + length q
        → contents f' ≡ overwrite (offset_of f) q (contents f)
        → offset_of f' ≡ offset_of f + length q
        → f'.error ≡ some e
        → FileWritten f p done (returned n (some e), f', w')

  FileWritten-SameFile :
      (f g : File) (p : Bytes) (done : ℕ) (r : Method S ℕ)
      → SameFile f g
      → FileWritten g p done r
      → FileWritten f p done r
  FileWritten-SameFile f g p done r same (wrote_all a v b c d) =
      wrote_all a v (b ∙ ap₂ (λ n xs. overwrite n p xs) same.same_offset same.same_bytes)
        (c ∙ ap (λ n. n + length p) same.same_offset) d
  FileWritten-SameFile f g p done r same (wrote_some q rest a n b c d) =
      wrote_some q rest a n (b ∙ ap₂ (λ n xs. overwrite n q xs) same.same_offset same.same_bytes)
        (c ∙ ap (λ n. n + length q) same.same_offset) d

  -- What is written behind a first part.
  FileWritten-append :
      (f g : File) (q p s : Bytes) (done : ℕ) (r : Method S ℕ)
      → q ++ p ≡ s
      → Wrote f q g
      → FileWritten g p (done + length q) r
      → FileWritten f s done r
  FileWritten-append f g q p s done r e h (wrote_all a v b c d) =
      wrote_all (omega (arith, a, length-append q p, ap length e)) v
        (b
          ∙ ap₂ (λ n xs. overwrite n p xs) h.offset h.bytes
          ∙ overwrite-overwrite (offset_of f) q p (contents f)
          ∙ ap (λ t. overwrite (offset_of f) t (contents f)) e)
        (omega (arith, c, h.offset, length-append q p, ap length e)) d
  FileWritten-append f g q p s done r e h (wrote_some t rest x a b c d) =
      wrote_some (q ++ t) rest (append_assoc q t rest ∙ ap (◌++◌ q) x ∙ e)
        (omega (arith, a, length-append q t))
        (b
          ∙ ap₂ (λ n xs. overwrite n t xs) h.offset h.bytes
          ∙ overwrite-overwrite (offset_of f) q t (contents f))
        (omega (arith, c, h.offset, length-append q t)) d

  failed_FileWritten :
      (f g : File) (p : Bytes) (done : ℕ) (w : World) (e : Error)
      → Inv f
      → offset_of f ≤ len_of f
      → SameFile f g
      → g.error ≡ some e
      → FileWritten f p done (returned done (some e), g, w)
  failed_FileWritten f g p done w e v le same x =
      wrote_some [] p refl (omega arith)
        (same.same_bytes
          ∙ sym (
              overwrite-nil (offset_of f) (contents f) (
                omega (
                  arith,
                  le,
                  length-take (len_of f) (flat f.blobs),
                  start-length-flat f.blobs f.len v.len_in,
                ))))
        (omega (arith, same.same_offset)) x

  abbrev Again : ℕ → Type 0
  Again fuel =
      (p : Bytes) (done : ℕ) (f : File) (w : World)
      → length p ≤ fuel
      → Inv f
      → offset_of f ≤ len_of f
      → FileWritten f p done (write_loop S fuel p done f w)

  put-FileWritten :
      (fuel : ℕ) (q p s : Bytes) (done : ℕ) (f : File) (w : World)
      → q ++ p ≡ s
      → length p ≤ fuel
      → Inv f
      → offset_of f ≤ len_of f
      → f.off.offset + length q ≤ size_of f.blobs f.off.index
      → Again fuel
      → FileWritten f s done (
          wrote S
            (write_loop S fuel p)
            done
            f
            (put_at S f.blobs f.off q w (some (get_or f.blobs f.off.index []))))
  put-FileWritten fuel q p s done f w e short v le fits again = elim (Option-cases (fault w).0) [
    | inl calm ↦
        simp (calm, le→leb _ _ fits)
          (FileWritten-append f (after f q) q p s done _ e (after-Wrote f q v le fits) (
            again p (done + length q) (after f q) (fault w).1 short (after-Wrote f q v le fits).inv
              (after-Wrote f q v le fits).within))
    | inr ((k, x), failure) ↦
        let h = after-Wrote f (take k q) v le (omega (arith, fits, length-take k q)) in
        simp (failure) (
          wrote_some (take k q) (drop k q ++ p)
            (sym (append_assoc (take k q) (drop k q) p)
              ∙ ap (λ t. t ++ p) (take-append-drop k q)
              ∙ e)
            refl h.bytes h.offset refl)
  ]

  chunk-FileWritten :
      (fuel : ℕ) (p : Bytes) (done : ℕ) (f : File) (w : World)
      → 0 < length p
      → length p ≤ suc fuel
      → Inv f
      → 0 < rem f.blobs f.off
      → offset_of f ≤ len_of f
      → Again fuel
      → FileWritten f p done (write_chunk S (write_loop S fuel) p done (none, f, w))
  chunk-FileWritten fuel p done f w some_bytes short v room le again =
      rw (get_elem?-get_or f.blobs f.off.index v.off_in.there) (
        put-FileWritten fuel (take k p) (drop k p) p done f w (take-append-drop k p)
          (omega (arith, length-drop k p, some_bytes, short, room)) v le
          (omega (arith, length-take k p, v.off_in.fits)) again)
    where
      k : ℕ
      k = min (length p) (rem f.blobs f.off)

  from_move :
      (fuel : ℕ) (p : Bytes) (done : ℕ) (f : File) (r : Option Error × File × World)
      → 0 < length p
      → length p ≤ suc fuel
      → Inv f
      → offset_of f ≤ len_of f
      → Again fuel
      → MoveEnd S f r
      → FileWritten f p done (write_chunk S (write_loop S fuel) p done r)
  from_move fuel p done f r some_bytes short v le again (at_blob {f' = g} {w = w} u room same) =
      FileWritten-SameFile f g p done _ same (
        chunk-FileWritten fuel p done g w some_bytes short u room
          (omega (arith, le, same.same_offset, same.same_len)) again)
  from_move fuel p done f r some_bytes short v le again (move_failed {f' = g} {w = w} e x same) =
      failed_FileWritten f g p done w e v le same x

  write_loop-FileWritten : (fuel : ℕ) → Again fuel
  unfolding write_loop
  write_loop-FileWritten fuel [] done f w short v le =
      wrote_all (omega arith) v
        (sym (
          overwrite-nil (offset_of f) (contents f) (
            omega (
              arith,
              le,
              length-take (len_of f) (flat f.blobs),
              start-length-flat f.blobs f.len v.len_in,
            ))))
        (omega arith) le
  write_loop-FileWritten zero (x ∷ p) done f w short v le = absurd (omega arith)
  write_loop-FileWritten (suc fuel) (x ∷ p) done f w short v le =
      from_move fuel (x ∷ p) done f (move S f w) (omega arith) short v le
        (λ p' done' f' w' s v' l. write_loop-FileWritten fuel p' done' f' w' s v' l)
        (move-MoveEnd S f w v)

  -- Write on a well-formed file whose position is not behind its end, by gt and by the bytes before it:
  -- it returns, with p in place of the bytes at the position, over the old end where p reaches behind
  -- it, and the position behind p; or it has written a first part of p so and returns an error, which
  -- the file keeps. Condition: the fuel is no less than the length of p.
  pub write-FileWritten :
      (fuel : ℕ) (p : Bytes) (f : File) (w : World)
      → length p ≤ fuel
      → Inv f
      → gt f.blobs f.off f.len ≡ false
      → offset_of f ≤ len_of f
      → FileWritten f p 0 (write S fuel p f w)
  unfolding write
  write-FileWritten fuel p f w short v here le =
      simp (v.no_error, here) (write_loop-FileWritten fuel p 0 f w short v le)
