-- ===== src/Sqlitex/Bitset.antt =====
-- sqlitex/exec.go: the set of the parameters of a statement that have a value. A word (uint64) is
-- the list of its 64 bits, the lowest first.
pub mod Members
pub mod FirstMissing
pub mod HasAll
pub mod Lacking
mod Tests
use go_sqlite.Base.{
  ℕ, zero, suc, ◌+◌, ◌-◌, ◌*◌, ◌/◌, ◌%◌, Bool, true, false, ◌&&◌, ◌||◌, not, Option, none, some,
  List, [], ◌∷◌, length, get_elem?, get_or, set, take, replicate, ltb, ◌==◌, if◌then◌else◌,
}

abbrev pub Word : Type 0
Word = List Bool

abbrev pub Bitset : Type 0
Bitset = List Word

abbrev pub or_word : Word → Word → Word
or_word (x ∷ xs) (y ∷ ys) = (x || y) ∷ or_word xs ys
or_word _ _ = []

abbrev pub and_word : Word → Word → Word
and_word (x ∷ xs) (y ∷ ys) = (x && y) ∷ and_word xs ys
and_word _ _ = []

abbrev pub same_bit : Bool → Bool → Bool
same_bit true b = b
same_bit false b = not b

abbrev pub same_word : Word → Word → Bool
same_word [] [] = true
same_word (x ∷ xs) (y ∷ ys) = same_bit x y && same_word xs ys
same_word _ _ = false

-- uint64(0), ^uint64(0) and, in a word of w bits, 1 << k
abbrev pub zero_word : Word
zero_word = replicate 64 false

abbrev pub full_word : Word
full_word = replicate 64 true

abbrev pub one_bit : ℕ → ℕ → Word
one_bit zero k = []
one_bit (suc w) zero = true ∷ replicate w false
one_bit (suc w) (suc k) = false ∷ one_bit w k

-- In a word of w bits, 1 << k minus 1.
abbrev pub mask : ℕ → ℕ → Word
mask zero k = []
mask (suc w) zero = replicate (suc w) false
mask (suc w) (suc k) = true ∷ mask w k

-- newBitset
unfoldable pub new_bitset : ℕ → Bitset
new_bitset n = replicate ((n + 63) / 64) zero_word

abbrev pub set_word : Bitset → ℕ → ℕ → Option Word → Option Bitset
set_word bs i k none = none
set_word bs i k (some w) = some (set bs i (or_word w (one_bit 64 k)))

-- (bitset).set; `none` is the panic of an index that is out of range.
unfoldable pub set_bit : Bitset → ℕ → Option Bitset
set_bit bs n = set_word bs (n / 64) (n % 64) (get_elem? bs (n / 64))

-- for j := 0; j < 64; j++ { if b&(1<<j) == 0 { ... } }
abbrev pub first_zero : Word → ℕ
first_zero [] = 0
first_zero (true ∷ bs) = suc (first_zero bs)
first_zero (false ∷ bs) = 0

-- (bitset).firstMissing
unfoldable pub first_missing_from : ℕ → Bitset → ℕ
first_missing_from i [] = i * 64
first_missing_from i (b ∷ bs) =
    let rest = first_missing_from (suc i) bs in
    if same_word b full_word then rest else i * 64 + first_zero b

unfoldable pub first_missing : Bitset → ℕ
first_missing bs = first_missing_from 0 bs

-- for _, b := range bs { if b != ^uint64(0) { return false } }
abbrev pub all_full : Bitset → Bool
all_full [] = true
all_full (b ∷ bs) = if same_word b full_word then all_full bs else false

-- bs[nbytes-1]&mask == mask, for a word that is there
abbrev pub covers : ℕ → Option Word → Bool
covers k none = false
covers k (some w) = same_word (and_word w (mask 64 k)) (mask 64 k)

-- (bitset).hasAll
unfoldable pub has_all : Bitset → ℕ → Bool
has_all bs n =
    if ltb (length bs) ((n + 63) / 64)
    then false
    else if not (all_full (take (n / 64) bs))
    then false
    else if n / 64 == (n + 63) / 64
    then true
    else covers (n % 64) (get_elem? bs ((n + 63) / 64 - 1))
