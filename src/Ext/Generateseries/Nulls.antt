-- ===== src/Ext/Generateseries/Nulls.antt =====
-- A NULL among the arguments.
use go_sqlite.Base.{
  ◌≡◌, refl, ap, subst, ◌∙◌, ℕ, zero, suc, Bool, true, false, not, some, [], ◌∷◌, arith,
}
use go_sqlite.Base.Int.{int_laws, ltb_ℤ, ℤ, pos, negsuc, ◌-ℤ◌, sub_ℕ, wrap, IsInt64, wrap-IsInt64}
use go_sqlite.Ext.Generateseries.Cursor.{
  Cursor, Value, null, non_null, filter, eof, any_null, last_value, bounds, int64, positioned,
  set_step,
}
use go_sqlite.Ext.Generateseries.Series.{all_given}
use native.Mathlib.Nat.{mod-eq_of_lt}

-- Below -1
abbrev pub leaps_down : ℤ → Bool
leaps_down (negsuc (suc n)) = true
leaps_down _ = false

last_value-null : (n : ℕ) → last_value (pos 1) (pos 0) (pos (suc (suc n))) ≡ pos 1
unfolding ◌-ℤ◌ wrap
last_value-null n =
    ap (λ r. wrap (pos 0 -ℤ sub_ℕ 0 r)) (mod-eq_of_lt {n = 1} {m = suc (suc n)} (omega arith))

abbrev null_cursor : ℤ → Cursor
null_cursor step =
    positioned (set_step all_given step).1 (pos 1) (pos 0) (set_step all_given step).0

still_null :
    (mn mx : Value) (z : ℤ)
    → any_null (mn ∷ mx ∷ []) ≡ true
    → any_null (mn ∷ mx ∷ non_null z ∷ []) ≡ true
still_null null mx z h = refl
still_null (non_null a) null z h = refl
still_null (non_null a) (non_null b) z h = cc

filtered :
    (mn mx : Value) (step : ℤ)
    → any_null (mn ∷ mx ∷ []) ≡ true
    → filter all_given (mn ∷ mx ∷ non_null step ∷ []) ≡ some (null_cursor step)
unfolding filter
filtered mn mx step n =
    ap
      (λ b. some (
        positioned (set_step all_given step).1 (bounds b (int64 mn) (int64 mx)).0
          (bounds b (int64 mn) (int64 mx)).1 (set_step all_given step).0))
      (still_null mn mx step n)

downwards : ℤ → Cursor
downwards s = positioned (record all_given { descending = true }) (pos 1) (pos 0) s

negated : (k : ℕ) → IsInt64 (pos 0 -ℤ negsuc k) → wrap (pos (suc k)) ≡ pos (suc k)
negated k h =
    let e : pos 0 -ℤ negsuc k ≡ pos (suc k) = omega int_laws in
    wrap-IsInt64 (pos (suc k)) (subst IsInt64 e h)

stops_at_one : eof (downwards (pos 1)) ≡ true
unfolding eof downwards ◌-ℤ◌ wrap
stops_at_one = refl

row_above_one : (k : ℕ) → eof (downwards (pos (suc (suc k)))) ≡ false
unfolding eof downwards
row_above_one k = ap (λ v. ltb_ℤ v (pos 1)) (last_value-null k)

eof-null : (step : ℤ) → IsInt64 (pos 0 -ℤ step) → eof (null_cursor step) ≡ not (leaps_down step)
unfolding eof downwards
eof-null (pos zero) h = refl
eof-null (pos (suc k)) h = refl
eof-null (negsuc zero) h = ap (λ s. eof (downwards s)) (negated 0 h) ∙ stops_at_one
eof-null (negsuc (suc k)) h = ap (λ s. eof (downwards s)) (negated (suc k) h) ∙ row_above_one k

-- Where the start or the stop is NULL, the cursor is at its end behind Filter, but for a step below -1:
-- then it is at a row. Condition: the step is not the least int64.
pub filter-null :
    (mn mx : Value) (step : ℤ)
    → any_null (mn ∷ mx ∷ []) ≡ true
    → IsInt64 (pos 0 -ℤ step)
    → (c : Cursor) × (filter all_given (mn ∷ mx ∷ non_null step ∷ []) ≡ some c)
      × (eof c ≡ not (leaps_down step))
filter-null mn mx step n h = (null_cursor step, filtered mn mx step n, eof-null step h)
