-- ===== src/Sqlitex/Bitset/Lacking.antt =====
-- What `hasAll` misses.
use go_sqlite.Base.{
  ◌≡◌, refl, sym, ◌∙◌, inl, inr, ℕ, zero, suc, ◌+◌, ◌-◌, ◌*◌, ◌/◌, ◌%◌, ◌<◌, ◌≤◌, true, false, ◌≢◌,
  replicate, [], ◌∷◌, length, get_elem?, get_or, take, ltb, ◌==◌, ==_iff, Bool-cases, arith,
}
use go_sqlite.Sqlitex.Bitset.{
  Word, Bitset, and_word, same_word, full_word, mask, first_zero, all_full, covers, has_all,
}
use go_sqlite.Sqlitex.Bitset.Members.{has, IsBitset}
use go_sqlite.Sqlitex.Bitset.FirstMissing.{first_zero-lt, first_zero-lacks}

-- A bit of the words that is not set.
abbrev Lacks : ℕ → ℕ → Bitset → Type 0
Lacks i j bs = get_or (get_or bs i []) j false ≡ false

words-Lacks :
    (q : ℕ) (bs : Bitset)
    → IsBitset bs
    → all_full (take q bs) ≡ false
    → (i : ℕ) × (j : ℕ) × (i < q) × (j < 64) × Lacks i j bs
words-Lacks zero bs wf e = cc (e)
words-Lacks (suc q) [] wf e = cc (e)
words-Lacks (suc q) (b ∷ bs) wf e = elim (Bool-cases (same_word b full_word)) [
  | inl full ↦
      let (i, j, lt, low, lacks) = words-Lacks q bs wf.1 (rw full at e) in
      (suc i, j, omega (arith, lt), low, lacks)
  | inr rest ↦ (0, first_zero b, omega arith, first_zero-lt 64 b wf.0 rest, first_zero-lacks b)
]

and-zeros :
    (w : ℕ) (b : Word)
    → length b ≡ w
    → same_word (and_word b (replicate w false)) (replicate w false) ≡ true
and-zeros zero [] len = refl
and-zeros zero (x ∷ b) len = absurd (omega arith)
and-zeros (suc w) [] len = absurd (omega arith)
and-zeros (suc w) (true ∷ b) len = and-zeros w b (omega arith)
and-zeros (suc w) (false ∷ b) len = and-zeros w b (omega arith)

mask-lacks :
    (w k : ℕ) (b : Word)
    → length b ≡ w
    → k ≤ w
    → same_word (and_word b (mask w k)) (mask w k) ≡ false
    → (j : ℕ) × (j < k) × (get_or b j false ≡ false)
mask-lacks zero k [] len le e = cc (e)
mask-lacks zero k (x ∷ b) len le e = absurd (omega arith)
mask-lacks (suc w) zero b len le e = cc (e, and-zeros (suc w) b len)
mask-lacks (suc w) (suc k) [] len le e = absurd (omega arith)
mask-lacks (suc w) (suc k) (false ∷ b) len le e = (0, omega arith, refl)
mask-lacks (suc w) (suc k) (true ∷ b) len le e =
    let (j, lt, lacks) = mask-lacks w k b (omega arith) (omega arith) e in
    (suc j, omega (arith, lt), lacks)

-- The last word, of which only the low bits count.
covers-Lacks :
    (bs : Bitset) (i k : ℕ)
    → IsBitset bs
    → k ≤ 64
    → i < length bs
    → covers k (get_elem? bs i) ≡ false
    → (j : ℕ) × (j < k) × Lacks i j bs
covers-Lacks [] i k wf le lt e = absurd (omega arith)
covers-Lacks (b ∷ bs) zero k wf le lt e = mask-lacks 64 k b wf.0 le e
covers-Lacks (b ∷ bs) (suc i) k wf le lt e = covers-Lacks bs i k wf.1 le (omega arith) e

-- Where `hasAll` does not hold of a set with words for all the numbers below, one of them is not in the set.
pub has_all-lacks :
    (bs : Bitset) (n : ℕ)
    → IsBitset bs
    → length bs ≡ (n + 63) / 64
    → has_all bs n ≡ false
    → (j : ℕ) × (j < n) × (has bs j ≡ false)
unfolding has_all
has_all-lacks bs n wf size e = elim (Bool-cases (all_full (take (n / 64) bs))) [
  | inr rest ↦
      let (i, j, lt, low, lacks) = words-Lacks (n / 64) bs wf rest in
      number i j (omega (arith, lt, low)) low lacks
  | inl full ↦
      let (j, lt, lacks) =
        covers-Lacks bs ((n + 63) / 64 - 1) (n % 64) wf (omega arith) (some_words full)
          (covered full) in
      number ((n + 63) / 64 - 1) j (omega (arith, other full, lt)) (omega (arith, lt)) lacks
]
  where
    number :
        (i j : ℕ) → i * 64 + j < n → j < 64 → Lacks i j bs → (k : ℕ) × (k < n) × (has bs k ≡ false)
    number i j lt low lacks =
        let here : (i * 64 + j) / 64 ≡ i = omega (arith, low) in
        let bit : (i * 64 + j) % 64 ≡ j = omega (arith, low) in
        (i * 64 + j, lt, rw (here, bit) lacks)

    long : ltb (length bs) ((n + 63) / 64) ≡ false
    long = ground (arith, size)

    some_rest : all_full (take (n / 64) bs) ≡ true → (n / 64 == (n + 63) / 64) ≡ false
    some_rest full = elim (Bool-cases (n / 64 == (n + 63) / 64)) [
      | inl same ↦ let t : true ≡ false = sym (rw (long, full, same)) ∙ e in cc (t)
      | inr x ↦ x
    ]

    covered :
        all_full (take (n / 64) bs) ≡ true
        → covers (n % 64) (get_elem? bs ((n + 63) / 64 - 1)) ≡ false
    covered full = sym (rw (long, full, some_rest full)) ∙ e

    other : all_full (take (n / 64) bs) ≡ true → n / 64 < (n + 63) / 64
    other full = elim (Bool-cases (n / 64 == (n + 63) / 64)) [
      | inl same ↦ cc (same, some_rest full)
      | inr x ↦ omega (arith, different (n / 64) ((n + 63) / 64) x)
    ]
      where
        different : (a b : ℕ) → (a == b) ≡ false → a ≢ b
        different a b x p = cc (x, (==_iff a b).1 p)

    some_words : all_full (take (n / 64) bs) ≡ true → (n + 63) / 64 - 1 < length bs
    some_words full = omega (arith, size, other full)
