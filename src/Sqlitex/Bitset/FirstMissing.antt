-- ===== src/Sqlitex/Bitset/FirstMissing.antt =====
-- The number that `firstMissing` finds.
use go_sqlite.Base.{
  ◌≡◌, refl, sym, ap, ◌∙◌, subst, inl, inr, ℕ, zero, suc, ◌+◌, ◌-◌, ◌*◌, ◌≤◌, ◌<◌, true, false, [],
  ◌∷◌, length, get_or, replicate, Bool-cases, arith, ltb, ltb→lt,
}
use go_sqlite.Sqlitex.Bitset.{
  Word, Bitset, same_word, full_word, first_zero, first_missing_from, first_missing,
}
use go_sqlite.Sqlitex.Bitset.Members.{has, has-low, has-high, IsBitset}

-- The number below 64 that the word lacks first.
pub first_zero-lacks : (b : Word) → get_or b (first_zero b) false ≡ false
first_zero-lacks [] = refl
first_zero-lacks (true ∷ b) = first_zero-lacks b
first_zero-lacks (false ∷ b) = refl

first_zero-has : (b : Word) (i : ℕ) → i < first_zero b → get_or b i false ≡ true
first_zero-has [] i lt = absurd (omega arith)
first_zero-has (true ∷ b) zero lt = refl
first_zero-has (true ∷ b) (suc i) lt = first_zero-has b i (omega arith)
first_zero-has (false ∷ b) i lt = absurd (omega arith)

pub same_word-eq : (a b : Word) → same_word a b ≡ true → a ≡ b
same_word-eq [] [] e = refl
same_word-eq [] (y ∷ b) e = cc
same_word-eq (x ∷ a) [] e = cc
same_word-eq (true ∷ a) (true ∷ b) e = ap (◌∷◌ true) (same_word-eq a b e)
same_word-eq (true ∷ a) (false ∷ b) e = cc
same_word-eq (false ∷ a) (true ∷ b) e = cc
same_word-eq (false ∷ a) (false ∷ b) e = ap (◌∷◌ false) (same_word-eq a b e)

-- A word of 64 bits that is not full lacks one of them.
pub first_zero-lt :
    (w : ℕ) (b : Word) → length b ≡ w → same_word b (replicate w true) ≡ false → first_zero b < w
first_zero-lt zero [] e f = cc
first_zero-lt zero (x ∷ b) e f = absurd (omega arith)
first_zero-lt (suc w) [] e f = absurd (omega arith)
first_zero-lt (suc w) (true ∷ b) e f =
    let below = first_zero-lt w b (omega arith) f in omega (arith, below)
first_zero-lt (suc w) (false ∷ b) e f = omega arith

pub get_or-replicate : (w j : ℕ) → j < w → get_or (replicate w true) j false ≡ true
get_or-replicate zero j lt = absurd (omega arith)
get_or-replicate (suc w) zero lt = refl
get_or-replicate (suc w) (suc j) lt = get_or-replicate w j (omega arith)

-- The number is not in the set, and all below it are.
abbrev pub IsFirstMissing : Bitset → ℕ → Type 0
IsFirstMissing bs k = (has bs k ≡ false) × ((j : ℕ) → j < k → has bs j ≡ true)

past_word : (j : ℕ) → 64 ≤ j → j ≡ 64 + (j - 64)
past_word j h = omega arith

at_least : (j : ℕ) → ltb j 64 ≡ false → 64 ≤ j
at_least j h = ground arith

below : (j k : ℕ) → 64 ≤ j → j < 64 + k → j - 64 < k
below j k h lt = omega arith

in_full :
    (b : Word) (bs : Bitset) (k : ℕ)
    → same_word b full_word ≡ true
    → IsFirstMissing bs k
    → IsFirstMissing (b ∷ bs) (64 + k)
in_full b bs k full (lacks, has_all) = (has-high b bs k ∙ lacks, by_number)
  where
    by_number : (j : ℕ) → j < 64 + k → has (b ∷ bs) j ≡ true
    by_number j lt = elim (Bool-cases (ltb j 64)) [
      | inl low ↦
          has-low b bs j (ltb→lt j 64 low)
          ∙ ap (λ w. get_or w j false) (same_word-eq b full_word full)
          ∙ get_or-replicate 64 j (ltb→lt j 64 low)
      | inr high ↦
          ap (has (b ∷ bs)) (past_word j (at_least j high))
          ∙ has-high b bs (j - 64)
          ∙ has_all (j - 64) (below j k (at_least j high) lt)
    ]

pub in_rest :
    (b : Word) (bs : Bitset)
    → length b ≡ 64
    → same_word b full_word ≡ false
    → IsFirstMissing (b ∷ bs) (first_zero b)
in_rest b bs l rest =
    let lt = first_zero-lt 64 b l rest in
    (
      has-low b bs (first_zero b) lt ∙ first_zero-lacks b,
      λ j h. has-low b bs j (omega (arith, h, lt)) ∙ first_zero-has b j h,
    )

first_missing_from-IsFirstMissing :
    (i : ℕ) (bs : Bitset)
    → IsBitset bs
    → (k : ℕ) × (first_missing_from i bs ≡ i * 64 + k) × IsFirstMissing bs k
unfolding first_missing_from
first_missing_from-IsFirstMissing i [] wf = (0, omega arith, (refl, λ j h. absurd (omega arith)))
first_missing_from-IsFirstMissing i (b ∷ bs) wf =
    let (k, e, is_first) = first_missing_from-IsFirstMissing (suc i) bs wf.1 in
    elim (Bool-cases (same_word b full_word)) [
      | inl full ↦ (64 + k, rw full (e ∙ next i k), in_full b bs k full is_first)
      | inr rest ↦ (first_zero b, rw rest refl, in_rest b bs wf.0 rest)
    ]
  where
    next : (i k : ℕ) → suc i * 64 + k ≡ i * 64 + (64 + k)
    next i k = omega arith

-- `firstMissing` is the least number that is not in the set.
pub first_missing-IsFirstMissing :
    (bs : Bitset) → IsBitset bs → IsFirstMissing bs (first_missing bs)
unfolding first_missing
first_missing-IsFirstMissing bs wf =
    let (k, e, is_first) = first_missing_from-IsFirstMissing 0 bs wf in
    subst (IsFirstMissing bs) (sym (e ∙ omega arith)) is_first
