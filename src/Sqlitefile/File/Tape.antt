-- ===== src/Sqlitefile/File/Tape.antt =====
-- The blobs of a File one behind the other, and where a position is in them.
use go_sqlite.Base.{
  ◌≡◌, refl, sym, ap, ◌∙◌, ℕ, zero, suc, ◌+◌, ◌≤◌, ◌<◌, some, List, [], ◌∷◌, ◌++◌, length,
  get_elem?, get_or, set, take, drop, length-append, append_assoc, arith,
}
use go_sqlite.Base.Bytes.{
  splice, splice-append_left, splice-append_right, take-drop-append, drop-length_add-append,
}
use go_sqlite.Sqlitefile.File.{Bytes, Position, size_of, sizes}

abbrev pub flat : List Bytes → Bytes
flat [] = []
flat (b ∷ bs) = b ++ flat bs

-- How many bytes are before a position.
abbrev pub start : List Bytes → Position → ℕ
start bs p = sizes p.index bs + p.offset

abbrev pub IsFull : List Bytes → Type 0
IsFull bs = (i : ℕ) → i < length bs → 0 < size_of bs i

pub record InBlob (bs : List Bytes) (p : Position) : Type 0 where
  pub there : p.index < length bs
  pub fits : p.offset ≤ size_of bs p.index

pub get_elem?-get_or :
    (bs : List Bytes) (i : ℕ) → i < length bs → get_elem? bs i ≡ some (get_or bs i [])
get_elem?-get_or [] i lt = absurd (omega arith)
get_elem?-get_or (b ∷ bs) zero lt = refl
get_elem?-get_or (b ∷ bs) (suc i) lt = get_elem?-get_or bs i (omega arith)

pub sizes-suc : (i : ℕ) (bs : List Bytes) → sizes (suc i) bs ≡ sizes i bs + size_of bs i
sizes-suc zero [] = refl
sizes-suc zero (b ∷ bs) = omega arith
sizes-suc (suc i) [] = refl
sizes-suc (suc i) (b ∷ bs) = omega (arith, sizes-suc i bs)

pub sizes_le : (i j : ℕ) (bs : List Bytes) → i ≤ j → sizes i bs ≤ sizes j bs
sizes_le zero j bs le = omega arith
sizes_le (suc i) zero bs le = absurd (omega arith)
sizes_le (suc i) (suc j) [] le = omega arith
sizes_le (suc i) (suc j) (b ∷ bs) le = omega (arith, sizes_le i j bs (omega arith))

pub sizes-length-flat : (i : ℕ) (bs : List Bytes) → sizes i bs ≤ length (flat bs)
sizes-length-flat zero bs = omega arith
sizes-length-flat (suc i) [] = omega arith
sizes-length-flat (suc i) (b ∷ bs) =
    omega (arith, sizes-length-flat i bs, length-append b (flat bs))

pub start-length-flat :
    (bs : List Bytes) (p : Position) → InBlob bs p → start bs p ≤ length (flat bs)
start-length-flat bs p v =
    omega (arith, v.fits, sizes-suc p.index bs, sizes-length-flat (suc p.index) bs)

pub length-set : (bs : List Bytes) (i : ℕ) (b : Bytes) → length (set bs i b) ≡ length bs
length-set [] i b = refl
length-set (c ∷ bs) zero b = refl
length-set (c ∷ bs) (suc i) b = ap suc (length-set bs i b)

pub size_of-set :
    (bs : List Bytes) (i j : ℕ) (b : Bytes)
    → length b ≡ size_of bs i
    → size_of (set bs i b) j ≡ size_of bs j
size_of-set [] i j b e = refl
size_of-set (c ∷ bs) zero zero b e = e
size_of-set (c ∷ bs) zero (suc j) b e = refl
size_of-set (c ∷ bs) (suc i) zero b e = refl
size_of-set (c ∷ bs) (suc i) (suc j) b e = size_of-set bs i j b e

pub sizes-set :
    (bs : List Bytes) (i j : ℕ) (b : Bytes)
    → length b ≡ size_of bs i
    → sizes j (set bs i b) ≡ sizes j bs
sizes-set bs i zero b e = refl
sizes-set bs i (suc j) b e =
    omega (
      arith,
      sizes-set bs i j b e,
      size_of-set bs i j b e,
      sizes-suc j bs,
      sizes-suc j (set bs i b),
    )

pub size_of-append :
    (bs cs : List Bytes) (i : ℕ) → i < length bs → size_of (bs ++ cs) i ≡ size_of bs i
size_of-append [] cs i lt = absurd (omega arith)
size_of-append (b ∷ bs) cs zero lt = refl
size_of-append (b ∷ bs) cs (suc i) lt = size_of-append bs cs i (omega arith)

pub size_of_new :
    (bs : List Bytes) (b : Bytes) (i : ℕ) → i ≡ length bs → size_of (bs ++ b ∷ []) i ≡ length b
size_of_new [] b zero e = refl
size_of_new [] b (suc i) e = absurd (omega arith)
size_of_new (c ∷ bs) b zero e = absurd (omega arith)
size_of_new (c ∷ bs) b (suc i) e = size_of_new bs b i (omega arith)

pub sizes-append : (i : ℕ) (bs cs : List Bytes) → i ≤ length bs → sizes i (bs ++ cs) ≡ sizes i bs
sizes-append zero bs cs le = refl
sizes-append (suc i) [] cs le = absurd (omega arith)
sizes-append (suc i) (b ∷ bs) cs le = ap (λ n. length b + n) (sizes-append i bs cs (omega arith))

pub flat-append : (bs cs : List Bytes) → flat (bs ++ cs) ≡ flat bs ++ flat cs
flat-append [] cs = refl
flat-append (b ∷ bs) cs = rw (flat-append bs cs, append_assoc)

-- A write into a blob is one into the bytes of all.
pub flat-set-splice :
    (bs : List Bytes) (i n : ℕ) (q : Bytes)
    → i < length bs
    → n + length q ≤ size_of bs i
    → flat (set bs i (splice n q (get_or bs i []))) ≡ splice (sizes i bs + n) q (flat bs)
flat-set-splice [] i n q lt le = absurd (omega arith)
flat-set-splice (b ∷ bs) zero n q lt le =
    let e : 0 + n ≡ n = omega arith in rw e (splice-append_left n q b (flat bs) le)
flat-set-splice (b ∷ bs) (suc i) n q lt le =
    let e : length b + sizes i bs + n ≡ length b + (sizes i bs + n) = omega arith in
    rw e (
      ap (◌++◌ b) (flat-set-splice bs i n q (omega arith) le)
      ∙ sym (splice-append_right (sizes i bs + n) q b (flat bs)))

-- What stands in a blob stands there in the bytes of all.
pub take-drop-flat :
    (bs : List Bytes) (i n k : ℕ)
    → n + k ≤ size_of bs i
    → take k (drop (sizes i bs + n) (flat bs)) ≡ take k (drop n (get_or bs i []))
take-drop-flat [] zero n k le = let e : 0 + n ≡ n = omega arith in rw e
take-drop-flat [] (suc i) n k le = let e : 0 + n ≡ n = omega arith in rw e
take-drop-flat (b ∷ bs) zero n k le =
    let e : 0 + n ≡ n = omega arith in rw e (take-drop-append k n b (flat bs) le)
take-drop-flat (b ∷ bs) (suc i) n k le =
    let e : length b + sizes i bs + n ≡ length b + (sizes i bs + n) = omega arith in
    rw e (
      ap (take k) (drop-length_add-append (sizes i bs + n) b (flat bs))
      ∙ take-drop-flat bs i n k le)
