-- ===== src/Sqlitefile/File/Positions.antt =====
-- How gt orders positions, against the bytes before them.
use go_sqlite.Base.{◌≡◌, ap, suc, ◌≤◌, ◌<◌, true, false, ◌||◌, ◌⊎◌, List, arith}
use go_sqlite.Sqlitefile.File.{Bytes, Position, rem, sizes, eq, gt}
use go_sqlite.Sqlitefile.File.Tape.{start, InBlob, IsFull, sizes-suc, sizes_le}

-- A position in a blob behind another's is behind the end of that blob.
pub later_blob :
    (bs : List Bytes) (p q : Position)
    → InBlob bs q
    → q.index < p.index
    → start bs q ≤ sizes p.index bs
later_blob bs p q v lt =
    omega (arith, v.fits, sizes-suc q.index bs, sizes_le (suc q.index) p.index bs (omega arith))

pub gt-true :
    (bs : List Bytes) (p q : Position) → InBlob bs q → gt bs p q ≡ true → start bs q ≤ start bs p
unfolding gt eq
gt-true bs p q v e =
    let apart : (q.index < p.index) → start bs q ≤ sizes p.index bs = later_blob bs p q v in
    ground (arith, apart)

-- Where eq takes two positions for the same that are not: the one at the end of a blob, the other at the
-- start of the blob before.
pub record FalselyEqual (bs : List Bytes) (p q : Position) : Type 0 where
  pub follows : p.index ≡ suc q.index
  pub at_end : rem bs p ≡ 0
  pub at_start : q.offset ≡ 0

pub gt-false :
    (bs : List Bytes) (p q : Position)
    → IsFull bs
    → InBlob bs p
    → InBlob bs q
    → ¬ FalselyEqual bs p q
    → gt bs p q ≡ false
    → start bs p ≤ start bs q
unfolding gt eq
gt-false bs p q full v u apart e =
    let before : (p.index < q.index) → start bs p ≤ sizes q.index bs = later_blob bs q p v in
    let not_here : (p.index ≡ suc q.index) → (rem bs p ≡ 0) → (q.offset ≡ 0) → ⊥ =
      λ a b c. apart (record { follows = a; at_end = b; at_start = c }) in
    ground (arith, before, not_here)

-- Positions in this order are never taken for the same.
pub not_FalselyEqual :
    (bs : List Bytes) (p q : Position)
    → IsFull bs
    → InBlob bs q
    → sizes p.index bs ≤ start bs q
    → ¬ FalselyEqual bs p q
not_FalselyEqual bs p q full u le h =
    let e : sizes p.index bs ≡ sizes (suc q.index) bs = ap (λ i. sizes i bs) h.follows in
    omega (arith, le, sizes-suc q.index bs, full q.index u.there, e, h.at_start)

pub gt-later :
    (bs : List Bytes) (p q : Position)
    → gt bs p q ≡ true
    → (q.index < p.index) ⊎ ((q.index ≡ p.index) × (q.offset < p.offset))
unfolding gt eq
gt-later bs p q e = ground arith

pub gt-total :
    (bs : List Bytes) (p q : Position) → gt bs p q ≡ false → eq bs q p || gt bs q p ≡ true
unfolding gt eq
gt-total bs p q e = ground arith

pub gt-same :
    (bs : List Bytes) (p q : Position) → q.index ≡ p.index → q.offset ≡ p.offset → gt bs p q ≡ false
unfolding gt eq
gt-same bs p q e e' = ground arith

pub FalselyEqual-eq : (bs : List Bytes) (p q : Position) → FalselyEqual bs p q → eq bs q p ≡ true
unfolding eq
FalselyEqual-eq bs p q h = ground (arith, h.follows, h.at_end, h.at_start)

pub FalselyEqual-gt : (bs : List Bytes) (p q : Position) → FalselyEqual bs p q → gt bs p q ≡ false
unfolding gt eq
FalselyEqual-gt bs p q h = ground (arith, h.follows, h.at_end, h.at_start)
