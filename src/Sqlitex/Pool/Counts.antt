-- ===== src/Sqlitex/Pool/Counts.antt =====
-- How often a connection is in a list.
use go_sqlite.Base.{
  ◌≡◌, refl, ap, ℕ, suc, ◌+◌, ◌<◌, Bool, true, false, List, [], ◌∷◌, ◌++◌, length, ltb, ◌==◌,
  ==_iff, ◌&&◌, not, Bool-cases, ◌⊎◌, inl, inr, arith,
}
use go_sqlite.Sqlitex.Pool.{count, remove}

pub count-append :
    (d : ℕ) (xs : List ℕ) (c : ℕ) → count d (xs ++ (c ∷ [])) ≡ count d xs + count d (c ∷ [])
count-append d [] c = omega arith
count-append d (x ∷ xs) c = let ih = count-append d xs c in ground arith

pub count-cons : (d c : ℕ) (xs : List ℕ) → count d (c ∷ xs) ≡ count d xs + count d (c ∷ [])
count-cons d c xs = ground arith

pub length-append_one : (xs : List ℕ) (c : ℕ) → length (xs ++ (c ∷ [])) ≡ suc (length xs)
length-append_one [] c = refl
length-append_one (x ∷ xs) c = ap suc (length-append_one xs c)

pub count-remove :
    (d c : ℕ) (xs : List ℕ) → 0 < count c xs → count d (remove c xs) + count d (c ∷ []) ≡ count d xs
count-remove d c [] lt = absurd (omega arith)
count-remove d c (x ∷ xs) lt = elim (Bool-cases (x == c)) [
  | inl same ↦ ground arith
  | inr other ↦ let ih = count-remove d c xs in ground arith
]

pub length-remove : (c : ℕ) (xs : List ℕ) → 0 < count c xs → suc (length (remove c xs)) ≡ length xs
length-remove c [] lt = absurd (omega arith)
length-remove c (x ∷ xs) lt = elim (Bool-cases (x == c)) [
  | inl same ↦ rw same
  | inr other ↦ rw other (ap suc (length-remove c xs (ground arith)))
]

pub count_self : (c : ℕ) → count c (c ∷ []) ≡ 1
count_self c = ground arith

pub same_or_not : (c d : ℕ) → (c ≡ d) ⊎ (count d (c ∷ []) ≡ 0)
same_or_not c d = elim (Bool-cases (c == d)) [
  | inl same ↦ inl ((==_iff c d).0 same)
  | inr other ↦ inr (rw other)
]

-- What a test of Take says of the times that a connection is in a list.
pub not_yet : (b : Bool) (n : ℕ) → (b && not (ltb 0 n)) ≡ true → n ≡ 0
not_yet b n e = ground arith

pub already : (b : Bool) (n : ℕ) → (b && not (ltb 0 n)) ≡ false → b ≡ true → 0 < n
already b n e t = ground arith
