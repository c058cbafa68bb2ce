-- ===== src/Sqlitex/Bitset/HasAll.antt =====
-- What `hasAll` reports.
use go_sqlite.Base.{
  ◌≡◌, refl, sym, ap, ◌∙◌, inl, inr, ℕ, zero, suc, ◌+◌, ◌-◌, ◌/◌, ◌%◌, ◌<◌, ◌≤◌, true, false,
  Option, none, some, [], ◌∷◌, length, get_elem?, get_or, take, ltb, ◌==◌, ==_iff, Bool-cases,
  arith, tests,
}
use go_sqlite.Sqlitex.Bitset.{
  Word, Bitset, and_word, same_word, full_word, mask, all_full, covers, has_all,
}
use go_sqlite.Sqlitex.Bitset.Members.{has, get_or-get_elem?}
use go_sqlite.Sqlitex.Bitset.FirstMissing.{same_word-eq, get_or-replicate}

-- A bit of a mask is a bit of each word that covers it.
and_mask-bit :
    (w k j : ℕ) (b : Word)
    → j < k
    → k ≤ w
    → and_word b (mask w k) ≡ mask w k
    → get_or b j false ≡ true
and_mask-bit zero k j b lt le e = absurd (omega arith)
and_mask-bit (suc w) zero j b lt le e = absurd (omega arith)
and_mask-bit (suc w) (suc k) j [] lt le e = cc
and_mask-bit (suc w) (suc k) zero (true ∷ b) lt le e = refl
and_mask-bit (suc w) (suc k) zero (false ∷ b) lt le e = cc
and_mask-bit (suc w) (suc k) (suc j) (x ∷ b) lt le e =
    and_mask-bit w k j b (omega arith) (omega arith) (cc (e))

full_words-bit :
    (q i j : ℕ) (bs : Bitset)
    → all_full (take q bs) ≡ true
    → i < q
    → q ≤ length bs
    → j < 64
    → get_or (get_or bs i []) j false ≡ true
full_words-bit zero i j bs f lt le low = absurd (omega arith)
full_words-bit (suc q) i j [] f lt le low = absurd (omega arith)
full_words-bit (suc q) zero j (b ∷ bs) f lt le low = elim (Bool-cases (same_word b full_word)) [
  | inl full ↦
      ap (λ w. get_or w j false) (same_word-eq b full_word full) ∙ get_or-replicate 64 j low
  | inr rest ↦ absurd (ground (arith, rest, f))
]
full_words-bit (suc q) (suc i) j (b ∷ bs) f lt le low = elim (Bool-cases (same_word b full_word)) [
  | inl full ↦ full_words-bit q i j bs (rw full at f) (omega arith) (omega arith) low
  | inr rest ↦ absurd (ground (arith, rest, f))
]

covers-bit :
    (bs : Bitset) (i k j : ℕ)
    → covers k (get_elem? bs i) ≡ true
    → j < k
    → k ≤ 64
    → get_or (get_or bs i []) j false ≡ true
covers-bit bs i k j h lt le = by_word (get_elem? bs i) refl h
  where
    by_word :
        (w : Option Word)
        → get_elem? bs i ≡ w
        → covers k w ≡ true
        → get_or (get_or bs i []) j false ≡ true
    by_word none e h = cc
    by_word (some w) e h =
        ap (λ w. get_or w j false) (get_or-get_elem? bs i w e)
        ∙ and_mask-bit 64 k j w lt le (same_word-eq (and_word w (mask 64 k)) (mask 64 k) h)

-- Where `hasAll` holds, all the numbers below are in the set.
pub has_all-has : (bs : Bitset) (n j : ℕ) → has_all bs n ≡ true → j < n → has bs j ≡ true
unfolding has_all
has_all-has bs n j h lt = elim (Bool-cases (ltb (length bs) ((n + 63) / 64))) [
  | inl short ↦ absurd (ground (arith, short, h))
  | inr long ↦ elim (Bool-cases (all_full (take (n / 64) bs))) [
    | inr rest ↦ absurd (ground (arith, long, rest, h))
    | inl full ↦ elim (Bool-cases (ltb (j / 64) (n / 64))) [
      | inl below ↦
          full_words-bit (n / 64) (j / 64) (j % 64) bs full (omega (tests, below)) (enough long)
            (omega arith)
      | inr last ↦
          ap (λ i. get_or (get_or bs i []) (j % 64) false) (last_word last)
          ∙ covers-bit bs ((n + 63) / 64 - 1) (n % 64) (j % 64) (last_covered long full last)
              (in_last last) (omega arith)
    ]
  ]
]
  where
    at_least : (a b : ℕ) → ltb a b ≡ false → b ≤ a
    at_least a b e = ground arith

    enough : ltb (length bs) ((n + 63) / 64) ≡ false → n / 64 ≤ length bs
    enough e = omega (arith, at_least (length bs) ((n + 63) / 64) e)

    last_word : ltb (j / 64) (n / 64) ≡ false → j / 64 ≡ (n + 63) / 64 - 1
    last_word e = omega (arith, at_least (j / 64) (n / 64) e, lt)

    in_last : ltb (j / 64) (n / 64) ≡ false → j % 64 < n % 64
    in_last e = omega (arith, at_least (j / 64) (n / 64) e, lt)

    more : ltb (j / 64) (n / 64) ≡ false → (n / 64 == (n + 63) / 64) ≡ false
    more e = elim (Bool-cases (n / 64 == (n + 63) / 64)) [
      | inl same ↦ absurd (
          omega (arith, (==_iff (n / 64) ((n + 63) / 64)).0 same, at_least (j / 64) (n / 64) e, lt))
      | inr other ↦ other
    ]

    last_covered :
        ltb (length bs) ((n + 63) / 64) ≡ false
        → all_full (take (n / 64) bs) ≡ true
        → ltb (j / 64) (n / 64) ≡ false
        → covers (n % 64) (get_elem? bs ((n + 63) / 64 - 1)) ≡ true
    last_covered long full last = sym (rw (long, full, more last)) ∙ h
