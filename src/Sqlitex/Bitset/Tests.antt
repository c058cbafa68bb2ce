-- ===== src/Sqlitex/Bitset/Tests.antt =====
-- Runs on a set of two words, and the theorems at inputs of these runs.
use go_sqlite.Base.{◌≡◌, refl, true, some, [], ◌∷◌}
use go_sqlite.Sqlitex.Bitset.{
  Bitset, zero_word, full_word, one_bit, new_bitset, set_bit, first_missing, first_missing_from,
  has_all,
}

-- The first 64 numbers, and 67.
abbrev some_numbers : Bitset
some_numbers = full_word ∷ one_bit 64 3 ∷ []

set_in_second_word : set_bit (new_bitset 70) 67 ≡ some (zero_word ∷ one_bit 64 3 ∷ [])
unfolding set_bit new_bitset
set_in_second_word = refl

first_missing_in_second_word : first_missing some_numbers ≡ 64
unfolding first_missing first_missing_from
first_missing_in_second_word = refl

all_below_64 : has_all some_numbers 64 ≡ true
unfolding has_all
all_below_64 = refl
