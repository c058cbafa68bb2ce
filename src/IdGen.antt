-- ===== src/IdGen.antt =====
-- func.go: the generator of the numbers by which C code names Go values, a set of the numbers in use. A word
-- is the list of its 64 bits, as in Sqlitex.Bitset.
pub mod Fresh
mod Tests
use go_sqlite.Base.{ℕ, ◌+◌, List, [], ◌∷◌, if◌then◌else◌}
use go_sqlite.Sqlitex.Bitset.{Word, Bitset, or_word, one_bit, full_word, same_word, first_zero}

-- The loop of (*idGen).next, from the number of the first bit of the words that are left
unfoldable pub next_from : ℕ → Bitset → ℕ × Bitset
next_from base [] = (base, one_bit 64 0 ∷ [])
next_from base (b ∷ bs) =
    let rest = next_from (base + 64) bs in
    if same_word b full_word
    then (rest.0, b ∷ rest.1)
    else (base + first_zero b, or_word b (one_bit 64 (first_zero b)) ∷ bs)

-- (*idGen).next
unfoldable pub next_id : Bitset → ℕ × Bitset
next_id bs = next_from 1 bs
