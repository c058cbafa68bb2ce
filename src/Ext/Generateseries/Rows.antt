-- ===== src/Ext/Generateseries/Rows.antt =====
-- The rows that a query reads from a cursor.
use go_sqlite.Base.{
  ◌≡◌, sym, ap, ◌∙◌, subst, inl, inr, ℕ, zero, suc, ◌+◌, ◌-◌, ◌<◌, true, false, Option, none, some,
  List, [], ◌∷◌, arith, Bool-cases, if◌then◌else◌,
}
use go_sqlite.Base.Int.{
  ℤ, pos, negsuc, pos_part, neg_part, ◌+ℤ◌, ◌-ℤ◌, ◌≤ℤ◌, ltb_ℤ, int_laws, wrap, IsInt64,
  wrap-IsInt64,
}
use go_sqlite.Ext.Generateseries.Cursor.{Cursor, next, eof}

-- What SQLite does behind Filter: it reads the value until EOF holds. `none` stands for out of fuel.
abbrev pub kept : ℤ → Option (List ℤ) → Option (List ℤ)
kept z none = none
kept z (some zs) = some (z ∷ zs)

unfoldable pub read_all : ℕ → Cursor → Option (List ℤ)
read_all zero c = none
read_all (suc fuel) c =
    let rest = read_all fuel (next c) in if eof c then some [] else kept c.value rest

-- The numbers from a on by a step, as long as they are no more than a bound; no less, for Falling.
pub data Rising (step mx : ℤ) : ℤ → List ℤ → Type 0 where
  above : {a : ℤ} → ltb_ℤ mx a ≡ true → Rising step mx a []
  rise : {a : ℤ} {zs : List ℤ} → a ≤ℤ mx → Rising step mx (a +ℤ step) zs → Rising step mx a (a ∷ zs)

pub data Falling (step mn : ℤ) : ℤ → List ℤ → Type 0 where
  below : {a : ℤ} → ltb_ℤ a mn ≡ true → Falling step mn a []
  fall :
      {a : ℤ} {zs : List ℤ} → mn ≤ℤ a → Falling step mn (a -ℤ step) zs → Falling step mn a (a ∷ zs)

-- The steps from a to b, and one more; 0 if b is below a.
abbrev pub room : ℤ → ℤ → ℕ
room a b = suc (pos_part b + neg_part a) - (pos_part a + neg_part b)

pub not_above : (a b : ℤ) → ltb_ℤ a b ≡ false → b ≤ℤ a
not_above a b e = ground arith

pub between : (a b c : ℤ) → IsInt64 a → IsInt64 c → a ≤ℤ b → b ≤ℤ c → IsInt64 b
between a (pos n) c h k le ge = record {
  below = let lt = k.below in ground arith;
  above = omega arith;
}
between a (negsuc n) c h k le ge = record {
  below = omega arith;
  above = let lo = h.above in ground arith;
}

read_all_end : (fuel : ℕ) (c : Cursor) → eof c ≡ true → read_all (suc fuel) c ≡ some []
unfolding read_all
read_all_end fuel c e = rw e

read_all_row :
    (fuel : ℕ) (c : Cursor) (zs : List ℤ)
    → eof c ≡ false
    → read_all fuel (next c) ≡ some zs
    → read_all (suc fuel) c ≡ some (c.value ∷ zs)
unfolding read_all
read_all_row fuel c zs e r = rw (e, r)

-- The cursor with another value and row number.
abbrev at : Cursor → ℤ → ℤ → Cursor
at c z i = record c { value = z; rowid = i }

eof_up : (c : Cursor) (z i : ℤ) → c.is_desc ≡ false → eof (at c z i) ≡ ltb_ℤ c.mx_value z
unfolding eof
eof_up c z i up = rw up

eof_down : (c : Cursor) (z i : ℤ) → c.is_desc ≡ true → eof (at c z i) ≡ ltb_ℤ z c.mn_value
unfolding eof
eof_down c z i down = rw down

next_up :
    (c : Cursor) (z i : ℤ)
    → c.is_desc ≡ false
    → IsInt64 (z +ℤ c.step)
    → next (at c z i) ≡ at c (z +ℤ c.step) (wrap (i +ℤ pos 1))
unfolding next
next_up c z i up h =
    ap (λ b. at c (if b then wrap (z -ℤ c.step) else wrap (z +ℤ c.step)) (wrap (i +ℤ pos 1))) up
    ∙ ap (λ t. at c t (wrap (i +ℤ pos 1))) (wrap-IsInt64 (z +ℤ c.step) h)

next_down :
    (c : Cursor) (z i : ℤ)
    → c.is_desc ≡ true
    → IsInt64 (z -ℤ c.step)
    → next (at c z i) ≡ at c (z -ℤ c.step) (wrap (i +ℤ pos 1))
unfolding next
next_down c z i down h =
    ap (λ b. at c (if b then wrap (z -ℤ c.step) else wrap (z +ℤ c.step)) (wrap (i +ℤ pos 1))) down
    ∙ ap (λ t. at c t (wrap (i +ℤ pos 1))) (wrap-IsInt64 (z -ℤ c.step) h)

module _ (c : Cursor) (s : ℕ) (st : c.step ≡ pos (suc s)) where
  upward :
      (z : ℤ) → IsInt64 z → z ≤ℤ c.mx_value → IsInt64 (c.mx_value +ℤ c.step) → IsInt64 (z +ℤ c.step)
  upward z h le k =
      between z (z +ℤ c.step) (c.mx_value +ℤ c.step) h k
        (subst (λ t. z ≤ℤ (z +ℤ t)) (sym st) (omega int_laws)) (omega (int_laws, le))

  downward :
      (z : ℤ) → IsInt64 z → c.mn_value ≤ℤ z → IsInt64 (c.mn_value -ℤ c.step) → IsInt64 (z -ℤ c.step)
  downward z h le k =
      between (c.mn_value -ℤ c.step) (z -ℤ c.step) z k h (omega (int_laws, le))
        (subst (λ t. (z -ℤ t) ≤ℤ z) (sym st) (omega int_laws))

  -- An ascending cursor yields the rising series up to its bound, if the bound and one step is an int64.
  pub read_all-Rising :
      (fuel : ℕ) (z i : ℤ)
      → c.is_desc ≡ false
      → IsInt64 z
      → IsInt64 (c.mx_value +ℤ c.step)
      → room z c.mx_value < fuel
      → (zs : List ℤ) × (read_all fuel (at c z i) ≡ some zs) × Rising c.step c.mx_value z zs
  read_all-Rising zero z i up h k lt = absurd (omega arith)
  read_all-Rising (suc fuel) z i up h k lt = elim (Bool-cases (ltb_ℤ c.mx_value z)) [
    | inl over ↦ ([], read_all_end fuel (at c z i) (eof_up c z i up ∙ over), above over)
    | inr within ↦
        let le : z ≤ℤ c.mx_value = not_above c.mx_value z within in
        let h' : IsInt64 (z +ℤ c.step) = upward z h le k in
        let (zs, r, v) =
          read_all-Rising fuel (z +ℤ c.step) (wrap (i +ℤ pos 1)) up h' k
            (omega (int_laws, ap pos_part st, ap neg_part st, lt, le)) in
        (
          z ∷ zs,
          read_all_row fuel (at c z i) zs (eof_up c z i up ∙ within)
              (ap (read_all fuel) (next_up c z i up h') ∙ r),
          rise le v,
        )
  ]

  -- A descending cursor yields the falling series down to its bound, if the bound less one step is an int64.
  pub read_all-Falling :
      (fuel : ℕ) (z i : ℤ)
      → c.is_desc ≡ true
      → IsInt64 z
      → IsInt64 (c.mn_value -ℤ c.step)
      → room c.mn_value z < fuel
      → (zs : List ℤ) × (read_all fuel (at c z i) ≡ some zs) × Falling c.step c.mn_value z zs
  read_all-Falling zero z i down h k lt = absurd (omega arith)
  read_all-Falling (suc fuel) z i down h k lt = elim (Bool-cases (ltb_ℤ z c.mn_value)) [
    | inl over ↦ ([], read_all_end fuel (at c z i) (eof_down c z i down ∙ over), below over)
    | inr within ↦
        let le : c.mn_value ≤ℤ z = not_above z c.mn_value within in
        let h' : IsInt64 (z -ℤ c.step) = downward z h le k in
        let (zs, r, v) =
          read_all-Falling fuel (z -ℤ c.step) (wrap (i +ℤ pos 1)) down h' k
            (omega (int_laws, ap pos_part st, ap neg_part st, lt, le)) in
        (
          z ∷ zs,
          read_all_row fuel (at c z i) zs (eof_down c z i down ∙ within)
              (ap (read_all fuel) (next_down c z i down h') ∙ r),
          fall le v,
        )
  ]
