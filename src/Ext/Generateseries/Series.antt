-- ===== src/Ext/Generateseries/Series.antt =====
-- The series of a query with a start, a stop and a step, from Filter to the last row.
use go_sqlite.Base.{
  ◌≡◌, refl, ap, ◌∙◌, ℕ, suc, ◌*◌, ◌%◌, ◌/◌, ◌<◌, true, false, Option, some, List, [], ◌∷◌, arith,
}
use go_sqlite.Base.Int.{
  ℤ, pos, negsuc, pos_part, neg_part, ◌+ℤ◌, ◌-ℤ◌, ◌≤ℤ◌, int_laws, wrap, IsInt64, wrap-IsInt64,
}
use go_sqlite.Ext.Generateseries.{Plan}
use go_sqlite.Ext.Generateseries.Cursor.{Cursor, Value, non_null, filter, last_value}
use go_sqlite.Ext.Generateseries.Rows.{
  Rising, Falling, room, read_all, read_all-Rising, read_all-Falling, between,
}
use native.Mathlib.Nat.{div-add-mod', mod-lt, mod-le}

-- The plan for all three arguments, with no order.
abbrev pub all_given : Plan
all_given = record { start = true; stop = true; step = true; descending = false; ascending = false }

abbrev pub arguments : ℤ → ℤ → ℤ → List Value
arguments mn mx step = non_null mn ∷ non_null mx ∷ non_null step ∷ []

-- The cursor behind Filter, and what SQLite reads from it.
pub record Yields (filtered : Option Cursor) (fuel : ℕ) (Rows : List ℤ → Type 0) : Type 0 where
  pub cursor : Cursor
  pub positioned : filtered ≡ some cursor
  pub values : List ℤ
  pub read : read_all fuel cursor ≡ some values
  pub are : Rows values

-- With a step above 0 the rows are the numbers from the start on, by the step, up to the stop.
-- Conditions: the start, and the stop with one step more, are int64s; the fuel exceeds the numbers between.
pub filter-Rising :
    (mn mx : ℤ) (s fuel : ℕ)
    → IsInt64 mn
    → IsInt64 (mx +ℤ pos (suc s))
    → room mn mx < fuel
    → Yields (filter all_given (arguments mn mx (pos (suc s)))) fuel (Rising (pos (suc s)) mx mn)
unfolding filter
filter-Rising mn mx s fuel h k lt =
    let c : Cursor = record {
      is_desc = false;
      rowid = pos 1;
      value = mn;
      mn_value = mn;
      mx_value = mx;
      step = pos (suc s);
    } in
    let (zs, r, v) = read_all-Rising c s refl fuel mn (pos 1) refl h k lt in
    record { cursor = c; positioned = refl; values = zs; read = r; are = v }

distance : (mn mx : ℤ) → mn ≤ℤ mx → mx -ℤ mn ≡ pos (pos_part (mx -ℤ mn))
unfolding ◌-ℤ◌
distance mn mx le = ground arith

-- The number of steps to the last value, and the last value.
abbrev pub steps : ℤ → ℤ → ℕ → ℕ
steps mn mx s = pos_part (mx -ℤ mn) / suc s

abbrev pub last : ℤ → ℤ → ℕ → ℤ
last mn mx s = mx -ℤ pos (pos_part (mx -ℤ mn) % suc s)

pub record IsLast (mn mx : ℤ) (s : ℕ) (v : ℤ) : Type 0 where
  pub on_series : (k : ℕ) × (v ≡ mn +ℤ pos (k * suc s))
  pub within : v ≤ℤ mx
  pub latest : (mx +ℤ pos 1) ≤ℤ (v +ℤ pos (suc s))

last-IsLast : (mn mx : ℤ) (s : ℕ) → mn ≤ℤ mx → IsLast mn mx s (last mn mx s)
last-IsLast mn mx s le = record {
  on_series = (
    steps mn mx s,
    omega (int_laws, div-add-mod' (pos_part (mx -ℤ mn)) (suc s), ap neg_part (distance mn mx le)),
  );
  within = omega int_laws;
  latest = omega (int_laws, mod-lt (pos_part (mx -ℤ mn)) {m = suc s} (omega arith));
}

start-last : (mn mx : ℤ) (s : ℕ) → mn ≤ℤ mx → mn ≤ℤ last mn mx s
start-last mn mx s le =
    omega (int_laws, mod-le (pos_part (mx -ℤ mn)) (suc s), ap neg_part (distance mn mx le))

last_value-last :
    (mn mx : ℤ) (s : ℕ)
    → mn ≤ℤ mx
    → IsInt64 mn
    → IsInt64 mx
    → IsInt64 (mx -ℤ mn)
    → last_value mn mx (pos (suc s)) ≡ last mn mx s
last_value-last mn mx s le h k d =
    let e : wrap (mx -ℤ mn) ≡ pos (pos_part (mx -ℤ mn)) =
      wrap-IsInt64 (mx -ℤ mn) d ∙ distance mn mx le in
    let v = last-IsLast mn mx s le in
    rw e (
      wrap-IsInt64 (last mn mx s)
        (between mn (last mn mx s) mx h k (start-last mn mx s le) v.within))

-- With a step below 0 the rows are the numbers down to the start, from the last number not above the
-- stop that whole steps from the start lead to. Conditions: the start is not above the stop; the step is
-- not the least int64; the start, the stop, their difference and the start less one step are int64s.
pub filter-Falling :
    (mn mx : ℤ) (s fuel : ℕ)
    → mn ≤ℤ mx
    → IsInt64 (pos (suc s))
    → IsInt64 mn
    → IsInt64 mx
    → IsInt64 (mx -ℤ mn)
    → IsInt64 (mn -ℤ pos (suc s))
    → room mn mx < fuel
    → (v : ℤ) × IsLast mn mx s v
      × Yields (filter all_given (arguments mn mx (negsuc s))) fuel (Falling (pos (suc s)) mn v)
unfolding filter
filter-Falling mn mx s fuel le b h k d j lt =
    let v = last mn mx s in
    let il = last-IsLast mn mx s le in
    let c : Cursor = record {
      is_desc = true;
      rowid = pos 1;
      value = v;
      mn_value = mn;
      mx_value = mx;
      step = pos (suc s);
    } in
    let e : filter all_given (arguments mn mx (negsuc s)) ≡ some c =
      ap
        (λ t. some (record {
          is_desc = true;
          rowid = pos 1;
          value = last_value mn mx t;
          mn_value = mn;
          mx_value = mx;
          step = t;
        }))
        (wrap-IsInt64 (pos (suc s)) b)
      ∙ ap (λ t. some (record c { value = t })) (last_value-last mn mx s le h k d) in
    let (zs, r, f) =
      read_all-Falling c s refl fuel v (pos 1) refl
        (between mn v mx h k (start-last mn mx s le) il.within) j (omega (arith, il.within, lt)) in
    (v, il, record { cursor = c; positioned = e; values = zs; read = r; are = f })
