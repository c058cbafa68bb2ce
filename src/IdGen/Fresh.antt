-- ===== src/IdGen/Fresh.antt =====
-- A number that is given is not in use, and is in use from then on.
use go_sqlite.Base.{
  ◌≡◌, refl, sym, ap, ap₂, subst, ◌∙◌, ℕ, suc, ◌+◌, ◌-◌, ◌/◌, ◌%◌, false, ◌||◌, some, [], ◌∷◌,
  length, ltb, ltb→lt, ◌==◌, Bool-cases, arith, inl, inr,
}
use go_sqlite.Sqlitex.Bitset.{
  Word, Bitset, or_word, one_bit, full_word, zero_word, same_word, first_zero, set_bit, new_bitset,
}
use go_sqlite.Sqlitex.Bitset.Members.{
  has, IsBitset, has-low, has-high, set_bit-adds, equal_tests, has-new_bitset,
}
use go_sqlite.Sqlitex.Bitset.FirstMissing.{in_rest, first_zero-lt}
use go_sqlite.IdGen.{next_from, next_id}

-- The bit was not set, and is what the second set has more.
pub record OneMore (k : ℕ) (bs bs' : Bitset) : Type 0 where
  pub lacks : has bs k ≡ false
  pub adds : (m : ℕ) → has bs' m ≡ (m == k || has bs m)
  pub keeps : IsBitset bs'

first_word : OneMore 0 [] (one_bit 64 0 ∷ [])
unfolding set_bit new_bitset
first_word =
    let (bs, e, wf, adds) = set_bit-adds (zero_word ∷ []) 0 (refl, tt) (omega arith) in
    let same : bs ≡ one_bit 64 0 ∷ [] = cc (e) in
    record {
      lacks = refl;
      adds = λ m.
          ap (λ bs. has bs m) (sym same) ∙ adds m ∙ ap (λ t. m == 0 || t) (has-new_bitset 64 m);
      keeps = (refl, tt);
    }

in_full :
    (b : Word) (k : ℕ) (bs bs' : Bitset)
    → length b ≡ 64
    → OneMore k bs bs'
    → OneMore (64 + k) (b ∷ bs) (b ∷ bs')
in_full b k bs bs' l one = record {
  lacks = has-high b bs k ∙ one.lacks;
  adds = by_number;
  keeps = (l, one.keeps);
}
  where
    by_number : (m : ℕ) → has (b ∷ bs') m ≡ (m == 64 + k || has (b ∷ bs) m)
    by_number m = elim (Bool-cases (ltb m 64)) [
      | inl low ↦
          let lt = ltb→lt m 64 low in
          let other : (m == 64 + k) ≡ false = ground (arith, lt) in
          has-low b bs' m lt ∙ sym (has-low b bs m lt) ∙ ap (λ t. t || has (b ∷ bs) m) (sym other)
      | inr high ↦
          let e : 64 + (m - 64) ≡ m = ground (arith, high) in
          ap (has (b ∷ bs')) (sym e)
          ∙ has-high b bs' (m - 64)
          ∙ one.adds (m - 64)
          ∙ ap₂ (λ s t. s || t)
              (sym (
                equal_tests (m - 64) k m (64 + k) (λ h. omega (arith, h, e))
                  (λ h. omega (arith, h, e))))
              (sym (has-high b bs (m - 64)) ∙ ap (has (b ∷ bs)) e)
    ]

in_word :
    (b : Word) (bs : Bitset)
    → IsBitset (b ∷ bs)
    → same_word b full_word ≡ false
    → OneMore (first_zero b) (b ∷ bs) (or_word b (one_bit 64 (first_zero b)) ∷ bs)
unfolding set_bit
in_word b bs wf rest =
    let lt = first_zero-lt 64 b wf.0 rest in
    let low : first_zero b / 64 ≡ 0 = omega (arith, lt) in
    let same : first_zero b % 64 ≡ first_zero b = omega (arith, lt) in
    let (bs', e, wf', adds) = set_bit-adds (b ∷ bs) (first_zero b) wf (omega (arith, low)) in
    let e' : set_bit (b ∷ bs) (first_zero b) ≡ some (or_word b (one_bit 64 (first_zero b)) ∷ bs) =
      simp (low, same) refl in
    let made : bs' ≡ or_word b (one_bit 64 (first_zero b)) ∷ bs = cc (e, e') in
    record {
      lacks = (in_rest b bs wf.0 rest).0;
      adds = λ m. ap (λ bs. has bs m) (sym made) ∙ adds m;
      keeps = subst IsBitset made wf';
    }

next_from-OneMore :
    (base : ℕ) (bs : Bitset)
    → IsBitset bs
    → (k : ℕ) × ((next_from base bs).0 ≡ base + k) × OneMore k bs (next_from base bs).1
unfolding next_from
next_from-OneMore base [] wf = (0, omega arith, first_word)
next_from-OneMore base (b ∷ bs) wf =
    let (k, e, one) = next_from-OneMore (base + 64) bs wf.1 in
    elim (Bool-cases (same_word b full_word)) [
      | inl full ↦ (
        64 + k,
        simp (full) (omega (arith, e)),
        simp (full) (in_full b k bs (next_from (base + 64) bs).1 wf.0 one),
      )
      | inr rest ↦ (first_zero b, simp (rest) refl, simp (rest) (in_word b bs wf rest))
    ]

-- The number that next gives is not 0 and was not in use; it is in use behind that, and no other number is
-- or is not in use that was not or was before. Condition: the words have 64 bits each.
pub next_id-OneMore :
    (bs : Bitset) → IsBitset bs → (k : ℕ) × ((next_id bs).0 ≡ suc k) × OneMore k bs (next_id bs).1
unfolding next_id
next_id-OneMore bs wf = let (k, e, one) = next_from-OneMore 1 bs wf in (k, e ∙ omega arith, one)
