-- ===== src/Base/Bytes.antt =====
-- Bytes that are overwritten from an offset on, in place or with the end moved, and parts of bytes.
use go_sqlite.Base.Lists.{length, take, drop}
use mathlib.Core.Path.{◌≡◌, refl, ap}
use mathlib.Core.Logic.{◌⊎◌, inl, inr}
use mathlib.Core.List.{List, [], ◌∷◌, ◌++◌}
use native.Mathlib.Omega.{arith}
use Prim.Native.Nat.{ℕ, zero, suc, ◌+◌, ◌≤◌}

-- p in place of what stands from the offset on; what does not fit is lost.
abbrev pub splice : ℕ → List ℕ → List ℕ → List ℕ
splice zero [] c = c
splice zero (x ∷ p) [] = []
splice zero (x ∷ p) (y ∷ c) = x ∷ splice zero p c
splice (suc n) p [] = []
splice (suc n) p (y ∷ c) = y ∷ splice n p c

pub length-splice : (n : ℕ) (p c : List ℕ) → length (splice n p c) ≡ length c
length-splice zero [] c = refl
length-splice zero (x ∷ p) [] = refl
length-splice zero (x ∷ p) (y ∷ c) = ap suc (length-splice zero p c)
length-splice (suc n) p [] = refl
length-splice (suc n) p (y ∷ c) = ap suc (length-splice n p c)

splice-nothing : (n : ℕ) (p : List ℕ) → splice n p [] ≡ []
splice-nothing zero [] = refl
splice-nothing zero (x ∷ p) = refl
splice-nothing (suc n) p = refl

pub splice-nil : (n : ℕ) (c : List ℕ) → splice n [] c ≡ c
splice-nil zero c = refl
splice-nil (suc n) [] = refl
splice-nil (suc n) (y ∷ c) = ap (◌∷◌ y) (splice-nil n c)

pub splice-splice :
    (n : ℕ) (p q c : List ℕ) → splice (n + length p) q (splice n p c) ≡ splice n (p ++ q) c
splice-splice zero [] q c = refl
splice-splice zero (x ∷ p) q [] = splice-nothing _ q
splice-splice zero (x ∷ p) q (y ∷ c) =
    let e : 0 + suc (length p) ≡ suc (0 + length p) = omega arith in
    rw e (ap (◌∷◌ x) (splice-splice zero p q c))
splice-splice (suc n) p q [] = splice-nothing _ q
splice-splice (suc n) p q (y ∷ c) =
    let e : suc n + length p ≡ suc (n + length p) = omega arith in
    rw e (ap (◌∷◌ y) (splice-splice n p q c))

pub take_nothing : (k : ℕ) → take {A = ℕ} k [] ≡ []
take_nothing zero = refl
take_nothing (suc k) = refl

pub take-take-drop : (m k : ℕ) (xs : List ℕ) → take m xs ++ take k (drop m xs) ≡ take (m + k) xs
take-take-drop zero k xs = let e : 0 + k ≡ k = omega arith in rw e
take-take-drop (suc m) k [] = let e : suc m + k ≡ suc (m + k) = omega arith in rw e (take_nothing k)
take-take-drop (suc m) k (x ∷ xs) =
    let e : suc m + k ≡ suc (m + k) = omega arith in rw e (ap (◌∷◌ x) (take-take-drop m k xs))

-- p in place of what stands from the offset on, with what does not fit behind it; zeros fill a gap before it.
abbrev pub overwrite : ℕ → List ℕ → List ℕ → List ℕ
overwrite zero [] c = c
overwrite zero (x ∷ p) [] = x ∷ overwrite zero p []
overwrite zero (x ∷ p) (y ∷ c) = x ∷ overwrite zero p c
overwrite (suc n) p [] = 0 ∷ overwrite n p []
overwrite (suc n) p (y ∷ c) = y ∷ overwrite n p c

pub overwrite-nil : (n : ℕ) (c : List ℕ) → n ≤ length c → overwrite n [] c ≡ c
overwrite-nil zero c le = refl
overwrite-nil (suc n) [] le = absurd (omega arith)
overwrite-nil (suc n) (y ∷ c) le = ap (◌∷◌ y) (overwrite-nil n c (omega arith))

pub overwrite-overwrite :
    (n : ℕ) (p q c : List ℕ) → overwrite (n + length p) q (overwrite n p c) ≡ overwrite n (p ++ q) c
overwrite-overwrite zero [] q c = refl
overwrite-overwrite zero (x ∷ p) q [] =
    let e : 0 + suc (length p) ≡ suc (0 + length p) = omega arith in
    rw e (ap (◌∷◌ x) (overwrite-overwrite zero p q []))
overwrite-overwrite zero (x ∷ p) q (y ∷ c) =
    let e : 0 + suc (length p) ≡ suc (0 + length p) = omega arith in
    rw e (ap (◌∷◌ x) (overwrite-overwrite zero p q c))
overwrite-overwrite (suc n) p q [] =
    let e : suc n + length p ≡ suc (n + length p) = omega arith in
    rw e (ap (◌∷◌ 0) (overwrite-overwrite n p q []))
overwrite-overwrite (suc n) p q (y ∷ c) =
    let e : suc n + length p ≡ suc (n + length p) = omega arith in
    rw e (ap (◌∷◌ y) (overwrite-overwrite n p q c))

-- A first part of the bytes whose end moves behind what is written.
pub take-splice :
    (m l n : ℕ) (q c : List ℕ)
    → n ≤ l
    → n + length q ≤ length c
    → l ≤ m
    → n + length q ≤ m
    → (m ≡ l) ⊎ (m ≡ n + length q)
    → take m (splice n q c) ≡ overwrite n q (take l c)
take-splice m l zero [] c le fits a b (inl e) = rw e
take-splice m l zero [] c le fits a b (inr e) = let z : m ≡ l = omega arith in rw z
take-splice m l zero (x ∷ q) [] le fits a b e = absurd (omega arith)
take-splice zero l zero (x ∷ q) (y ∷ c) le fits a b e = absurd (omega arith)
take-splice (suc m) zero zero (x ∷ q) (y ∷ c) le fits a b (inl e) = absurd (omega arith)
take-splice (suc m) zero zero (x ∷ q) (y ∷ c) le fits a b (inr e) = ap (◌∷◌ x) (
    take-splice m zero zero q c (omega arith) (omega arith) (omega arith) (omega arith)
      (inr (omega arith)))
take-splice (suc m) (suc l) zero (x ∷ q) (y ∷ c) le fits a b (inl e) = ap (◌∷◌ x) (
    take-splice m l zero q c (omega arith) (omega arith) (omega arith) (omega arith)
      (inl (omega arith)))
take-splice (suc m) (suc l) zero (x ∷ q) (y ∷ c) le fits a b (inr e) = ap (◌∷◌ x) (
    take-splice m l zero q c (omega arith) (omega arith) (omega arith) (omega arith)
      (inr (omega arith)))
take-splice m l (suc n) q [] le fits a b e = absurd (omega arith)
take-splice m zero (suc n) q (y ∷ c) le fits a b e = absurd (omega arith)
take-splice zero (suc l) (suc n) q (y ∷ c) le fits a b e = absurd (omega arith)
take-splice (suc m) (suc l) (suc n) q (y ∷ c) le fits a b (inl e) = ap (◌∷◌ y) (
    take-splice m l n q c (omega arith) (omega arith) (omega arith) (omega arith)
      (inl (omega arith)))
take-splice (suc m) (suc l) (suc n) q (y ∷ c) le fits a b (inr e) = ap (◌∷◌ y) (
    take-splice m l n q c (omega arith) (omega arith) (omega arith) (omega arith)
      (inr (omega arith)))

pub splice-append_left :
    (n : ℕ) (q b c : List ℕ) → n + length q ≤ length b → splice n q b ++ c ≡ splice n q (b ++ c)
splice-append_left zero [] b c le = refl
splice-append_left zero (x ∷ q) [] c le = absurd (omega arith)
splice-append_left zero (x ∷ q) (y ∷ b) c le =
    ap (◌∷◌ x) (splice-append_left zero q b c (omega arith))
splice-append_left (suc n) q [] c le = absurd (omega arith)
splice-append_left (suc n) q (y ∷ b) c le = ap (◌∷◌ y) (splice-append_left n q b c (omega arith))

pub splice-append_right :
    (n : ℕ) (q b c : List ℕ) → splice (length b + n) q (b ++ c) ≡ b ++ splice n q c
splice-append_right n q [] c = let e : 0 + n ≡ n = omega arith in rw e
splice-append_right n q (y ∷ b) c =
    let e : suc (length b) + n ≡ suc (length b + n) = omega arith in
    rw e (ap (◌∷◌ y) (splice-append_right n q b c))

pub take-drop-append :
    (k n : ℕ) (b c : List ℕ) → n + k ≤ length b → take k (drop n (b ++ c)) ≡ take k (drop n b)
take-drop-append zero n b c le = refl
take-drop-append (suc k) n [] c le = absurd (omega arith)
take-drop-append (suc k) zero (y ∷ b) c le = ap (◌∷◌ y) (take-drop-append k zero b c (omega arith))
take-drop-append (suc k) (suc n) (y ∷ b) c le = take-drop-append (suc k) n b c (omega arith)

pub drop-length_add-append : (n : ℕ) (b c : List ℕ) → drop (length b + n) (b ++ c) ≡ drop n c
drop-length_add-append n [] c = let e : 0 + n ≡ n = omega arith in rw e
drop-length_add-append n (y ∷ b) c =
    let e : suc (length b) + n ≡ suc (length b + n) = omega arith in
    rw e (drop-length_add-append n b c)

pub take-drop-take :
    (k n l : ℕ) (c : List ℕ) → n + k ≤ l → take k (drop n (take l c)) ≡ take k (drop n c)
take-drop-take zero n l c le = refl
take-drop-take (suc k) n zero c le = absurd (omega arith)
take-drop-take (suc k) zero (suc l) [] le = refl
take-drop-take (suc k) zero (suc l) (y ∷ c) le =
    ap (◌∷◌ y) (take-drop-take k zero l c (omega arith))
take-drop-take (suc k) (suc n) (suc l) [] le = refl
take-drop-take (suc k) (suc n) (suc l) (y ∷ c) le = take-drop-take (suc k) n l c (omega arith)
