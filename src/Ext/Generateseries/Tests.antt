-- ===== src/Ext/Generateseries/Tests.antt =====
-- Runs of the table, and the theorems at inputs of these runs.
use go_sqlite.Base.{◌≡◌, refl, sym, subst, ℕ, ◌<◌, true, false, not, some, [], ◌∷◌, arith}
use go_sqlite.Base.Int.{ℤ, pos, negsuc, ◌+ℤ◌, ◌-ℤ◌, wrap, IsInt64}
use go_sqlite.Ext.IndexTypes.{IndexConstraint, IndexInputs, index_constraint_eq}
use go_sqlite.Ext.Generateseries.Cursor.{Cursor, null, non_null, filter, next, eof}
use go_sqlite.Ext.Generateseries.Rows.{Rising, Falling, read_all}
use go_sqlite.Ext.Generateseries.Series.{
  all_given, arguments, Yields, IsLast, filter-Rising, filter-Falling,
}
use go_sqlite.Ext.Generateseries.Nulls.{leaps_down, filter-null}
use go_sqlite.Ext.Generateseries.Planned.{Planned}

abbrev cursor_at_5 : Cursor
cursor_at_5 = record {
  is_desc = false;
  rowid = pos 1;
  value = pos 5;
  mn_value = pos 5;
  mx_value = pos 30;
  step = pos 10;
}

yields_three : read_all 9 cursor_at_5 ≡ some (pos 5 ∷ pos 15 ∷ pos 25 ∷ [])
unfolding read_all next eof ◌+ℤ◌ wrap
yields_three = refl

abbrev equals : ℤ → IndexConstraint
equals z = record { column = z; op = index_constraint_eq; usable = true }

-- start = ... AND stop = ... ORDER BY value DESC
abbrev bounded : IndexInputs
bounded = record {
  constraints = equals (pos 1) ∷ equals (pos 2) ∷ [];
  order_by = record { order_column = pos 0; desc = true } ∷ [];
}

small : (n : ℕ) → n < 1000 → IsInt64 (pos n)
small n lt = record { below = omega arith; above = omega arith }

small_negative : (n : ℕ) → n < 1000 → IsInt64 (negsuc n)
small_negative n lt = record { below = omega arith; above = omega arith }

forty : pos 30 +ℤ pos 10 ≡ pos 40
unfolding ◌+ℤ◌
forty = refl

twenty_five : pos 30 -ℤ pos 5 ≡ pos 25
unfolding ◌-ℤ◌
twenty_five = refl

minus_five : pos 5 -ℤ pos 10 ≡ negsuc 4
unfolding ◌-ℤ◌
minus_five = refl

ten : pos 0 -ℤ negsuc 9 ≡ pos 10
unfolding ◌-ℤ◌
ten = refl

filter-Rising_example :
    Yields
      (filter all_given (arguments (pos 5) (pos 30) (pos 10)))
      30
      (Rising (pos 10) (pos 30) (pos 5))
filter-Rising_example =
    filter-Rising (pos 5) (pos 30) 9 30 (small 5 (omega arith))
      (subst IsInt64 (sym forty) (small 40 (omega arith))) (omega arith)

filter-Falling_example :
    (v : ℤ) × IsLast (pos 5) (pos 30) 9 v
    × Yields
        (filter all_given (arguments (pos 5) (pos 30) (negsuc 9)))
        30
        (Falling (pos 10) (pos 5) v)
filter-Falling_example =
    filter-Falling (pos 5) (pos 30) 9 30 (omega arith) (small 10 (omega arith))
      (small 5 (omega arith)) (small 30 (omega arith))
      (subst IsInt64 (sym twenty_five) (small 25 (omega arith)))
      (subst IsInt64 (sym minus_five) (small_negative 4 (omega arith))) (omega arith)

filter-null_example :
    (c : Cursor) × (filter all_given (null ∷ non_null (pos 7) ∷ non_null (negsuc 9) ∷ []) ≡ some c)
    × (eof c ≡ not (leaps_down (negsuc 9)))
filter-null_example =
    filter-null null (non_null (pos 7)) (negsuc 9) refl
      (subst IsInt64 (sym ten) (small 10 (omega arith)))
