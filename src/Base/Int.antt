-- ===== src/Base/Int.antt =====
-- Signed integers over the native numbers, under the library's names (its ℤ stands on the unary ℕ).
use go_sqlite.Base.Tests.{◌==◌, ==_iff, ==_refl, ltb, leb, if◌then◌else◌}
use mathlib.Core.Path.{◌≡◌, ap, refl}
use mathlib.Core.Bool.{Bool, true, false}
use native.Mathlib.Omega.{arith}
use Prim.Native.Nat.{ℕ, zero, suc, ◌+◌, ◌-◌, ◌%◌, ◌≤◌, ◌<◌}

-- `negsuc n` is -(n + 1).
pub data ℤ : Type 0 where
  pos : ℕ → ℤ
  negsuc : ℕ → ℤ

abbrev pub is_nat : ℤ → ℕ → Bool
is_nat (pos n) m = n == m
is_nat (negsuc n) m = false

pub is_nat-eq : (z : ℤ) (m : ℕ) → is_nat z m ≡ true → z ≡ pos m
is_nat-eq (pos n) m h = ap pos ((==_iff n m).0 h)
is_nat-eq (negsuc n) m h = cc

-- One more, and one less.
abbrev pub succ : ℤ → ℤ
succ (pos n) = pos (suc n)
succ (negsuc zero) = pos 0
succ (negsuc (suc n)) = negsuc n

abbrev pub pred : ℤ → ℤ
pred (pos zero) = negsuc 0
pred (pos (suc n)) = pos n
pred (negsuc n) = negsuc (suc n)

pub succ-pred : (z : ℤ) → succ (pred z) ≡ z
succ-pred (pos zero) = refl
succ-pred (pos (suc n)) = refl
succ-pred (negsuc n) = refl

abbrev pub is_int : ℤ → ℤ → Bool
is_int (pos n) (pos m) = n == m
is_int (negsuc n) (negsuc m) = n == m
is_int _ _ = false

pub is_int-eq : (z w : ℤ) → is_int z w ≡ true → z ≡ w
is_int-eq (pos n) (pos m) h = ap pos ((==_iff n m).0 h)
is_int-eq (negsuc n) (negsuc m) h = ap negsuc ((==_iff n m).0 h)
is_int-eq (pos n) (negsuc m) h = cc
is_int-eq (negsuc n) (pos m) h = cc

pub is_nat_refl : (n : ℕ) → is_nat (pos n) n ≡ true
is_nat_refl n = ==_refl n

-- The two parts of an integer, of which one is 0.
abbrev pub pos_part : ℤ → ℕ
pos_part (pos n) = n
pos_part (negsuc n) = 0

abbrev pub neg_part : ℤ → ℕ
neg_part (pos n) = 0
neg_part (negsuc n) = suc n

-- a - b, as an integer
abbrev pub sub_ℕ : ℕ → ℕ → ℤ
sub_ℕ a b = if leb b a then pos (a - b) else negsuc (b - a - 1)

infixl 65 ◌+ℤ◌ ◌-ℤ◌
infix 50 ◌≤ℤ◌
unfoldable pub ◌+ℤ◌ : ℤ → ℤ → ℤ
a +ℤ b = sub_ℕ (pos_part a + pos_part b) (neg_part a + neg_part b)

unfoldable pub ◌-ℤ◌ : ℤ → ℤ → ℤ
a -ℤ b = sub_ℕ (pos_part a + neg_part b) (neg_part a + pos_part b)

abbrev pub ◌≤ℤ◌ : ℤ → ℤ → Type 0
a ≤ℤ b = pos_part a + neg_part b ≤ pos_part b + neg_part a

abbrev pub ltb_ℤ : ℤ → ℤ → Bool
ltb_ℤ a b = ltb (pos_part a + neg_part b) (pos_part b + neg_part a)

-- Shut, the operations are known to `omega` by their parts.
pub +ℤ_parts :
    (a b : ℤ)
    → pos_part (a +ℤ b) + neg_part a + neg_part b ≡ neg_part (a +ℤ b) + pos_part a + pos_part b
unfolding ◌+ℤ◌
+ℤ_parts a b = ground arith

pub -ℤ_parts :
    (a b : ℤ)
    → pos_part (a -ℤ b) + neg_part a + pos_part b ≡ neg_part (a -ℤ b) + pos_part a + neg_part b
unfolding ◌-ℤ◌
-ℤ_parts a b = ground arith

pub eq_of_parts : (a b : ℤ) → pos_part a + neg_part b ≡ pos_part b + neg_part a → a ≡ b
eq_of_parts a b h = ground arith

pub ruleset int_laws = (arith, +ℤ_parts, -ℤ_parts, eq_of_parts)

-- int64(v) of a uint64 wraps round.
abbrev pub to_int64 : ℕ → ℤ
to_int64 n = if ltb n 9223372036854775808 then pos n else negsuc (18446744073709551615 - n)

-- What an int64 keeps of an integer.
unfoldable pub wrap : ℤ → ℤ
wrap (pos n) = to_int64 (n % 18446744073709551616)
wrap (negsuc n) = to_int64 (18446744073709551615 - n % 18446744073709551616)

pub record IsInt64 (z : ℤ) : Type 0 where
  pub below : pos_part z < 9223372036854775808
  pub above : neg_part z ≤ 9223372036854775808

-- An integer that fits in 64 bits is kept.
pub wrap-IsInt64 : (z : ℤ) → IsInt64 z → wrap z ≡ z
unfolding wrap
wrap-IsInt64 (pos n) h = let lt = h.below in ground arith
wrap-IsInt64 (negsuc n) h = let le = h.above in ground arith
