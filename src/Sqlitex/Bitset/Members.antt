-- ===== src/Sqlitex/Bitset/Members.antt =====
-- What a bitset holds, and what `set` makes of it.
use go_sqlite.Base.{
  ◌≡◌, ◌≢◌, refl, sym, ap, ap₂, ◌∙◌, subst, inl, inr, ℕ, zero, suc, ◌+◌, ◌/◌, ◌%◌, ◌<◌, Bool, true,
  false, ◌||◌, Option, none, some, [], ◌∷◌, length, get_elem?, get_or, set, replicate, ◌==◌, ==_iff,
  Bool-cases, arith, get_elem?-none, length-replicate, ◌+◌,
}
use go_sqlite.Sqlitex.Bitset.{
  Word, Bitset, or_word, one_bit, set_word, set_bit, new_bitset, zero_word,
}

-- Whether the set has a number.
abbrev pub has : Bitset → ℕ → Bool
has bs n = get_or (get_or bs (n / 64) []) (n % 64) false

pub equal_tests : (a b c d : ℕ) → (a ≡ b → c ≡ d) → (c ≡ d → a ≡ b) → (c == d) ≡ (a == b)
equal_tests a b c d to from = elim (Bool-cases (c == d)) [
  | inl t ↦ t ∙ sym ((==_iff a b).1 (from ((==_iff c d).0 t)))
  | inr f ↦ elim (Bool-cases (a == b)) [
    | inl t ↦ absurd (cc (f, (==_iff c d).1 (to ((==_iff a b).0 t))))
    | inr g ↦ f ∙ sym g
  ]
]

or_word-zero : (w : ℕ) (b : Word) → length b ≡ w → or_word b (replicate w false) ≡ b
or_word-zero w [] e = subst (λ w. or_word [] (replicate w false) ≡ []) e refl
or_word-zero zero (x ∷ b) e = absurd (omega arith)
or_word-zero (suc w) (true ∷ b) e = ap (◌∷◌ true) (or_word-zero w b (omega arith))
or_word-zero (suc w) (false ∷ b) e = ap (◌∷◌ false) (or_word-zero w b (omega arith))

get_or-or_word :
    (w k j : ℕ) (b : Word)
    → length b ≡ w
    → k < w
    → get_or (or_word b (one_bit w k)) j false ≡ (j == k || get_or b j false)
get_or-or_word zero k j b e lt = absurd (omega arith)
get_or-or_word (suc w) k j [] e lt = absurd (omega arith)
get_or-or_word (suc w) zero zero (x ∷ b) e lt = ground arith
get_or-or_word (suc w) zero (suc j) (x ∷ b) e lt =
    ap (λ b. get_or b j false) (or_word-zero w b (omega arith))
    ∙ ap (λ t. t || get_or b j false)
        (sym (equal_tests 0 1 (suc j) 0 (λ h. absurd (omega arith)) (λ h. absurd (omega arith))))
get_or-or_word (suc w) (suc k) zero (x ∷ b) e lt = ground arith
get_or-or_word (suc w) (suc k) (suc j) (x ∷ b) e lt =
    get_or-or_word w k j b (omega arith) (omega arith)
    ∙ ap (λ t. t || get_or b j false)
        (sym (equal_tests j k (suc j) (suc k) (λ h. ap suc h) (λ h. omega arith)))

get_or-set_same :
    (bs : Bitset) (i : ℕ) (b v : Word) → get_elem? bs i ≡ some v → get_or (set bs i b) i [] ≡ b
get_or-set_same [] i b v e = cc
get_or-set_same (x ∷ bs) zero b v e = refl
get_or-set_same (x ∷ bs) (suc i) b v e = get_or-set_same bs i b v e

get_or-set_other :
    (bs : Bitset) (i j : ℕ) (b : Word) → j ≢ i → get_or (set bs i b) j [] ≡ get_or bs j []
get_or-set_other [] i j b ne = refl
get_or-set_other (x ∷ bs) zero zero b ne = absurd (ne refl)
get_or-set_other (x ∷ bs) zero (suc j) b ne = refl
get_or-set_other (x ∷ bs) (suc i) zero b ne = refl
get_or-set_other (x ∷ bs) (suc i) (suc j) b ne = get_or-set_other bs i j b (λ h. ne (ap suc h))

pub get_or-get_elem? :
    (bs : Bitset) (i : ℕ) (v : Word) → get_elem? bs i ≡ some v → get_or bs i [] ≡ v
get_or-get_elem? [] i v e = cc
get_or-get_elem? (x ∷ bs) zero v e = cc
get_or-get_elem? (x ∷ bs) (suc i) v e = get_or-get_elem? bs i v e

-- Every word has its 64 bits.
abbrev pub IsBitset : Bitset → Type 0
IsBitset [] = Unit {0}
IsBitset (b ∷ bs) = (length b ≡ 64) × IsBitset bs

IsBitset-get_elem? :
    (bs : Bitset) (i : ℕ) (b : Word) → IsBitset bs → get_elem? bs i ≡ some b → length b ≡ 64
IsBitset-get_elem? [] i b wf e = cc
IsBitset-get_elem? (x ∷ bs) zero b wf e = subst (λ y. length y ≡ 64) (cc e) wf.0
IsBitset-get_elem? (x ∷ bs) (suc i) b wf e = IsBitset-get_elem? bs i b wf.1 e

IsBitset-set :
    (bs : Bitset) (i : ℕ) (b : Word) → IsBitset bs → length b ≡ 64 → IsBitset (set bs i b)
IsBitset-set [] i b wf l = tt
IsBitset-set (x ∷ bs) zero b wf l = (l, wf.1)
IsBitset-set (x ∷ bs) (suc i) b wf l = (wf.0, IsBitset-set bs i b wf.1 l)

length-or_word : (w k : ℕ) (b : Word) → length b ≡ w → length (or_word b (one_bit w k)) ≡ w
length-or_word zero k [] e = refl
length-or_word zero k (x ∷ b) e = absurd (omega arith)
length-or_word (suc w) k [] e = absurd (omega arith)
length-or_word (suc w) zero (x ∷ b) e =
    ap suc (ap length (or_word-zero w b (omega arith)) ∙ omega arith)
length-or_word (suc w) (suc k) (x ∷ b) e = ap suc (length-or_word w k b (omega arith))

members_after :
    (bs : Bitset) (n m : ℕ) (b : Word)
    → get_elem? bs (n / 64) ≡ some b
    → length b ≡ 64
    → has (set bs (n / 64) (or_word b (one_bit 64 (n % 64)))) m ≡ (m == n || has bs m)
members_after bs n m b e l = elim (Bool-cases (m / 64 == n / 64)) [
  | inl same ↦
      let q = (==_iff (m / 64) (n / 64)).0 same in
      ap (λ i. get_or (get_or changed i []) (m % 64) false) q
      ∙ ap (λ w. get_or w (m % 64) false)
          (get_or-set_same bs (n / 64) (or_word b (one_bit 64 (n % 64))) b e)
      ∙ get_or-or_word 64 (n % 64) (m % 64) b l (omega arith)
      ∙ ap₂ (λ t w. t || get_or w (m % 64) false)
          (equal_tests m n (m % 64) (n % 64) (λ h. ap (λ x. x % 64) h) (λ h. whole m n q h))
          (sym (ap (λ i. get_or bs i []) q ∙ get_or-get_elem? bs (n / 64) b e))
  | inr other ↦
      ap (λ w. get_or w (m % 64) false)
        (get_or-set_other bs (n / 64) (m / 64) (or_word b (one_bit 64 (n % 64)))
          (λ h. cc (other, (==_iff (m / 64) (n / 64)).1 h)))
      ∙ ap (λ t. t || has bs m)
          (sym (
            equal_tests 0 1 m n (λ h. absurd (omega arith))
              (λ h. absurd (cc (other, (==_iff (m / 64) (n / 64)).1 (ap (λ x. x / 64) h))))))
]
  where
    changed : Bitset
    changed = set bs (n / 64) (or_word b (one_bit 64 (n % 64)))

    whole : (m n : ℕ) → m / 64 ≡ n / 64 → m % 64 ≡ n % 64 → m ≡ n
    whole m n q r = omega arith

pub has-low : (b : Word) (bs : Bitset) (n : ℕ) → n < 64 → has (b ∷ bs) n ≡ get_or b n false
has-low b bs n lt = rw (low n lt, low_rest n lt) refl
  where
    low : (n : ℕ) → n < 64 → n / 64 ≡ 0
    low n lt = omega arith

    low_rest : (n : ℕ) → n < 64 → n % 64 ≡ n
    low_rest n lt = omega arith

pub has-high : (b : Word) (bs : Bitset) (n : ℕ) → has (b ∷ bs) (64 + n) ≡ has bs n
has-high b bs n = rw (high n, high_rest n) refl
  where
    high : (n : ℕ) → (64 + n) / 64 ≡ suc (n / 64)
    high n = omega arith

    high_rest : (n : ℕ) → (64 + n) % 64 ≡ n % 64
    high_rest n = omega arith

-- In a bitset with a word for the number, `set` adds it, keeps what else is there or not, and gives
-- a bitset again.
pub set_bit-adds :
    (bs : Bitset) (n : ℕ)
    → IsBitset bs
    → n / 64 < length bs
    → (bs' : Bitset) × (set_bit bs n ≡ some bs')
      × IsBitset bs'
      × ((m : ℕ) → has bs' m ≡ (m == n || has bs m))
unfolding set_bit
set_bit-adds bs n wf lt = by_word (get_elem? bs (n / 64)) refl
  where
    by_word :
        (w : Option Word)
        → get_elem? bs (n / 64) ≡ w
        → (bs' : Bitset) × (set_word bs (n / 64) (n % 64) w ≡ some bs')
          × IsBitset bs'
          × ((m : ℕ) → has bs' m ≡ (m == n || has bs m))
    by_word none e = let past = get_elem?-none bs (n / 64) e in absurd (omega (arith, past, lt))
    by_word (some b) e =
        let l = IsBitset-get_elem? bs (n / 64) b wf e in
        (
          set bs (n / 64) (or_word b (one_bit 64 (n % 64))),
          refl,
          IsBitset-set bs (n / 64) _ wf (length-or_word 64 (n % 64) b l),
          λ m. members_after bs n m b e l,
        )

length-set : (bs : Bitset) (i : ℕ) (b : Word) → length (set bs i b) ≡ length bs
length-set [] i b = refl
length-set (x ∷ bs) zero b = refl
length-set (x ∷ bs) (suc i) b = ap suc (length-set bs i b)

pub length-set_bit : (bs bs' : Bitset) (n : ℕ) → set_bit bs n ≡ some bs' → length bs' ≡ length bs
unfolding set_bit
length-set_bit bs bs' n e = by_word (get_elem? bs (n / 64)) e
  where
    by_word :
        (w : Option Word) → set_word bs (n / 64) (n % 64) w ≡ some bs' → length bs' ≡ length bs
    by_word none e = cc
    by_word (some b) e =
        let same : set bs (n / 64) (or_word b (one_bit 64 (n % 64))) ≡ bs' = cc (e) in
        sym (ap length same) ∙ length-set bs (n / 64) (or_word b (one_bit 64 (n % 64)))

pub new_bitset-IsBitset : (n : ℕ) → IsBitset (new_bitset n)
unfolding new_bitset
new_bitset-IsBitset n = zeros ((n + 63) / 64)
  where
    zeros : (k : ℕ) → IsBitset (replicate k zero_word)
    zeros zero = tt
    zeros (suc k) = (refl, zeros k)

get_or-zeros : (k i j : ℕ) → get_or (get_or (replicate k zero_word) i []) j false ≡ false
get_or-zeros zero i j = refl
get_or-zeros (suc k) zero j = no_bit 64 j
  where
    no_bit : (w j : ℕ) → get_or (replicate w false) j false ≡ false
    no_bit zero j = refl
    no_bit (suc w) zero = refl
    no_bit (suc w) (suc j) = no_bit w j
get_or-zeros (suc k) (suc i) j = get_or-zeros k i j

pub has-new_bitset : (n j : ℕ) → has (new_bitset n) j ≡ false
unfolding new_bitset
has-new_bitset n j = get_or-zeros ((n + 63) / 64) (j / 64) (j % 64)

pub length-new_bitset : (n : ℕ) → length (new_bitset n) ≡ (n + 63) / 64
unfolding new_bitset
length-new_bitset n = length-replicate ((n + 63) / 64) zero_word
