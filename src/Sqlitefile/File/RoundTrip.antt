-- ===== src/Sqlitefile/File/RoundTrip.antt =====
-- What is written is read back.
use go_sqlite.Base.{
  ◌≡◌, refl, sym, ap, ap₂, ◌∙◌, subst, ℕ, zero, suc, ◌+◌, ◌≤◌, ◌<◌, false, none, some, [], ◌∷◌,
  length, take, drop, take-length, arith,
}
use go_sqlite.Base.Int.{ℤ, pos}
use go_sqlite.Base.Bytes.{overwrite}
use go_sqlite.Blob.{seek_start}
use go_sqlite.Errors.{Error}
use go_sqlite.Sqlitefile.File.{Bytes, File, Faults, returned, Method, len_of, gt, write, read, seek}
use go_sqlite.Sqlitefile.File.Positions.{FalselyEqual}
use go_sqlite.Sqlitefile.File.Invariant.{contents, offset_of, Inv}
use go_sqlite.Sqlitefile.File.Writing.{FileWritten, wrote_all, write-FileWritten}
use go_sqlite.Sqlitefile.File.Reading.{FileRead, read_all, at_end, read_some, read-FileRead}
use go_sqlite.Sqlitefile.File.Seeking.{SeekEnd, sought, seek-SeekEnd}

take-overwrite : (k : ℕ) (p c : Bytes) → k ≤ length p → take k (overwrite 0 p c) ≡ take k p
take-overwrite zero p c le = refl
take-overwrite (suc k) [] c le = absurd (omega arith)
take-overwrite (suc k) (x ∷ p) [] le = ap (◌∷◌ x) (take-overwrite k p [] (omega arith))
take-overwrite (suc k) (x ∷ p) (y ∷ c) le = ap (◌∷◌ x) (take-overwrite k p c (omega arith))

take-drop-overwrite :
    (k n : ℕ) (p c : Bytes) → k ≤ length p → take k (drop n (overwrite n p c)) ≡ take k p
take-drop-overwrite k zero p c le = take-overwrite k p c le
take-drop-overwrite k (suc n) p [] le = take-drop-overwrite k n p [] le
take-drop-overwrite k (suc n) p (y ∷ c) le = take-drop-overwrite k n p c le

module _ (S : Faults) where
  open S use {World}

  -- The bytes, or a first part of them with an error.
  pub data ReadsBack (p : Bytes) : Method S Bytes → Type 0 where
    whole : {f : File} {w : World} → ReadsBack p (returned p none, f, w)
    part :
        {bs : Bytes} {e : Error} {f : File} {w : World} (k : ℕ)
        → bs ≡ take k p
        → ReadsBack p (returned bs (some e), f, w)

  -- The file behind a Write that returned no error.
  record WentIn (f : File) (p : Bytes) (f' : File) : Type 0 where
    inv : Inv f'
    bytes : contents f' ≡ overwrite (offset_of f) p (contents f)
    room : offset_of f + length p ≤ len_of f'

  by_write :
      {n : ℕ} {f f' : File} {p : Bytes} {w : World}
      → FileWritten S f p 0 (returned n none, f', w)
      → WentIn f p f'
  by_write (wrote_all a v b c d) = record { inv = v; bytes = b; room = omega (arith, c, d) }

  record WentTo (f : File) (n : ℕ) (f' : File) : Type 0 where
    inv : Inv f'
    offset : offset_of f' ≡ n
    bytes : contents f' ≡ contents f
    len : len_of f' ≡ len_of f

  by_seek :
      {z : ℤ} (n : ℕ) {f f' : File} {w w' : World}
      → SeekEnd S f w (pos n) (returned z none, f', w')
      → WentTo f n f'
  by_seek n (sought k e v o b) =
      let q : k ≡ n = cc (e) in record { inv = v; offset = o ∙ q; bytes = b.bytes; len = b.len }

  by_read :
      (f g : File) (p : Bytes) (r : Method S Bytes)
      → 0 < length p
      → contents g ≡ overwrite (offset_of f) p (contents f)
      → offset_of g ≡ offset_of f
      → offset_of f + length p ≤ len_of g
      → FileRead S g (length p) r
      → ReadsBack p r
  by_read f g p r more bytes offset room (read_all {bs = bs} {w' = w} q _ a _ _) =
      let e : bs ≡ p =
        a
        ∙ ap₂ (λ n c. take (length p) (drop n c)) offset bytes
        ∙ take-drop-overwrite (length p) (offset_of f) p (contents f) (omega arith)
        ∙ take-length (length p) p (omega arith) in
      subst (λ bs. ReadsBack p (returned bs none, record g { off = q }, w)) (sym e) whole
  by_read f g p r more bytes offset room (at_end q le _ _) =
      absurd (omega (arith, le, offset, room, more))
  by_read f g p r more bytes offset room (read_some q k le a _) = part k (
      a
      ∙ ap₂ (λ n c. take k (drop n c)) offset bytes
      ∙ take-drop-overwrite k (offset_of f) p (contents f) le)

  -- What a Write has put at the position, with no error, a Seek back to it and a Read of as many bytes
  -- give: all of it, or a first part of it with an error. Conditions: the file is well-formed, there is
  -- a byte, the position is not behind the end, the Seek returned no error, the position it left is not
  -- one that eq takes for the end by mistake, and the fuel is more than what is read and than the
  -- position.
  pub written-ReadsBack :
      (fuel : ℕ) (p : Bytes) (f f' g : File) (n : ℕ) (z : ℤ) (w w1 w2 : World)
      → 0 < length p
      → length p < fuel
      → offset_of f < fuel
      → Inv f
      → gt f.blobs f.off f.len ≡ false
      → offset_of f ≤ len_of f
      → write S fuel p f w ≡ (returned n none, f', w1)
      → seek S fuel (pos (offset_of f)) seek_start f' w1 ≡ (returned z none, g, w2)
      → (¬ FalselyEqual g.blobs g.len g.off)
      → ReadsBack p (read S fuel (length p) g w2)
  written-ReadsBack fuel p f f' g n z w w1 w2 more short low v here le went came apart =
      let a : WentIn f p f' = by_write (
        subst (FileWritten S f p 0) went
          (write-FileWritten S fuel p f w (omega (arith, short)) v here le)) in
      let b : WentTo f' (offset_of f) g = by_seek (offset_of f) (
        subst (SeekEnd S f' w1 (pos (offset_of f))) came
          (seek-SeekEnd S fuel (pos (offset_of f)) seek_start f' w1 enough a.inv)) in
      by_read f g p (read S fuel (length p) g w2) more (b.bytes ∙ a.bytes) b.offset
        (omega (arith, a.room, b.len)) (read-FileRead S fuel (length p) g w2 more short b.inv apart)
    where
      enough : (k : ℕ) → pos (offset_of f) ≡ pos k → k < fuel
      enough k e = let q : offset_of f ≡ k = cc (e) in omega (arith, q, low)
