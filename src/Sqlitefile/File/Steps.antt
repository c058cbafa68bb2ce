-- ===== src/Sqlitefile/File/Steps.antt =====
-- Where Read goes on, and how far in one turn of its loop.
use go_sqlite.Base.{
  ◌≡◌, refl, sym, ap, ℕ, suc, ◌+◌, ◌-◌, ◌≤◌, ◌<◌, ◌==◌, min, true, Bool-cases, length, arith, ◌⊎◌,
  inl, inr,
}
use go_sqlite.Sqlitefile.File.{Position, File, size_of, sizes, len_of, gt, rem, past_end, read_size}
use go_sqlite.Sqlitefile.File.Tape.{start, sizes-suc}
use go_sqlite.Sqlitefile.File.Positions.{later_blob, gt-later}
use go_sqlite.Sqlitefile.File.Invariant.{offset_of, Inv}

-- Where Read goes on, in a blob that has more bytes, and how far it goes in it.
pub record Step (f : File) (q : Position) : Type 0 where
  pub there : q.index < length f.blobs
  pub more : q.offset < size_of f.blobs q.index
  pub same_start : start f.blobs q ≡ offset_of f
  pub not_later : q.index ≤ f.len.index
  pub not_behind : q.index ≡ f.len.index → q.offset ≤ f.len.offset

pub past_end-Step :
    (f : File) → Inv f → gt f.blobs f.len f.off ≡ true → Step f (past_end f.blobs f.off)
past_end-Step f v e = elim (Bool-cases (rem f.blobs f.off == 0)) [
  | inl z ↦ simp (z) (at_next (gt-later f.blobs f.len f.off e) (ground arith))
  | inr z ↦ simp (z) (at_same (gt-later f.blobs f.len f.off e) (ground arith))
]
  where
    at_next :
        (f.off.index < f.len.index) ⊎ ((f.off.index ≡ f.len.index) × (f.off.offset < f.len.offset))
        → rem f.blobs f.off ≡ 0
        → Step f (record { index = suc f.off.index; offset = 0 })
    at_next (inl lt) z = record {
      there = omega (arith, lt, v.len_in.there);
      more = v.full (suc f.off.index) (omega (arith, lt, v.len_in.there));
      same_start = omega (arith, v.off_in.fits, sizes-suc f.off.index f.blobs, z);
      not_later = omega (arith, lt);
      not_behind = λ h. omega arith;
    }
    at_next (inr (h, lt)) z =
        let g : size_of f.blobs f.off.index ≡ size_of f.blobs f.len.index =
          ap (size_of f.blobs) h in
        absurd (omega (arith, z, lt, v.len_in.fits, g))

    at_same :
        (f.off.index < f.len.index) ⊎ ((f.off.index ≡ f.len.index) × (f.off.offset < f.len.offset))
        → 0 < rem f.blobs f.off
        → Step f f.off
    at_same (inl lt) z = record {
      there = v.off_in.there;
      more = omega (arith, z);
      same_start = refl;
      not_later = omega (arith, lt);
      not_behind = λ h. absurd (omega (arith, lt, h));
    }
    at_same (inr (h, lt)) z = record {
      there = v.off_in.there;
      more = omega (arith, z);
      same_start = refl;
      not_later = omega (arith, h);
      not_behind = λ _. omega (arith, lt);
    }

abbrev pub at : File → Position → File
at f q = record f { off = q }

pub record Far (f : File) (q : Position) (n k : ℕ) : Type 0 where
  pub fits : q.offset + k ≤ size_of f.blobs q.index
  pub asked : k ≤ n
  pub within : start f.blobs q + k ≤ len_of f
  pub onward : (0 < k) ⊎ ((q.index ≡ f.len.index) × (q.offset + k ≡ f.len.offset))

pub read_size-Far :
    (f : File) (q : Position) (n : ℕ) → 0 < n → Inv f → Step f q → Far f q n (read_size n (at f q))
read_size-Far f q n some_bytes v s = elim (Bool-cases (f.len.index == q.index)) [
  | inl e ↦ simp (e) (last_blob (ground arith))
  | inr e ↦ simp (e) (earlier_blob (ground (arith, s.not_later)))
]
  where
    last_blob : f.len.index ≡ q.index → Far f q n (min n (f.len.offset - q.offset))
    last_blob e =
        let a : sizes f.len.index f.blobs ≡ sizes q.index f.blobs = ap (λ i. sizes i f.blobs) e in
        let b : size_of f.blobs f.len.index ≡ size_of f.blobs q.index = ap (size_of f.blobs) e in
        let c : q.offset ≤ f.len.offset = s.not_behind (sym e) in
        record {
          fits = omega (arith, b, c, v.len_in.fits);
          asked = omega arith;
          within = omega (arith, a, c);
          onward = ground (arith, c, some_bytes, e);
        }

    earlier_blob : q.index < f.len.index → Far f q n (min n (size_of f.blobs q.index - q.offset))
    earlier_blob lt =
        let a : start f.blobs (record { index = q.index; offset = size_of f.blobs q.index })
            ≤ sizes f.len.index f.blobs =
          later_blob f.blobs f.len (record { index = q.index; offset = size_of f.blobs q.index })
            (record { there = s.there; fits = omega arith }) lt in
        record {
          fits = omega (arith, s.more);
          asked = omega arith;
          within = omega (arith, a, s.more);
          onward = inl (omega (arith, some_bytes, s.more));
        }
