-- ===== src/IdGen/Tests.antt =====
-- A full word, and one with its first number in use.
use go_sqlite.Base.{◌≡◌, refl, ℕ, suc, [], ◌∷◌}
use go_sqlite.Sqlitex.Bitset.{Bitset, full_word, one_bit}
use go_sqlite.IdGen.{next_id}
use go_sqlite.IdGen.Fresh.{OneMore, next_id-OneMore}

abbrev in_use : Bitset
in_use = full_word ∷ one_bit 64 0 ∷ []

next_id-OneMore_example :
    (k : ℕ) × ((next_id in_use).0 ≡ suc k) × OneMore k in_use (next_id in_use).1
next_id-OneMore_example = next_id-OneMore in_use (refl, (refl, tt))
