-- ===== src/Ext/Generateseries/Cursor.antt =====
-- ext/generateseries/generateseries.go: the cursor.
use go_sqlite.Base.{
  ℕ, zero, suc, ◌%◌, Bool, true, false, Option, none, some, List, [], ◌∷◌, if◌then◌else◌, ◌==◌,
}
use go_sqlite.Base.Int.{ℤ, pos, negsuc, sub_ℕ, ◌+ℤ◌, ◌-ℤ◌, ltb_ℤ, wrap}
use go_sqlite.Ext.Generateseries.{Plan}

infixl 5 ◌>>=◌
abbrev pub ◌>>=◌ {ℓ κ} : {A : Type ℓ} {B : Type κ} → Option A → (A → Option B) → Option B
none >>= f = none
some a >>= f = f a

-- An argument of Filter: NULL, or a value that Int64 converts to an integer.
pub data Value : Type 0 where
  null : Value
  non_null : ℤ → Value

abbrev pub int64 : Value → ℤ
int64 null = pos 0
int64 (non_null z) = z

abbrev pub any_null : List Value → Bool
any_null [] = false
any_null (null ∷ vs) = true
any_null (non_null z ∷ vs) = any_null vs

pub record Cursor : Type 0 where
  pub is_desc : Bool
  pub rowid : ℤ
  pub value : ℤ
  pub mn_value : ℤ
  pub mx_value : ℤ
  pub step : ℤ

-- a % b of Go, which has the sign of a.
abbrev pub signed_rem : ℤ → ℕ → ℤ
signed_rem (pos n) m = pos (n % m)
signed_rem (negsuc n) m = sub_ℕ 0 (suc n % m)

-- argv[i].Int64() where the plan has the bit, with the arguments from i on; `none` is the panic of an
-- index that is out of range.
abbrev pub int_arg : Bool → ℤ → List Value → Option (ℤ × List Value)
int_arg false default argv = some (default, argv)
int_arg true default [] = none
int_arg true default (v ∷ vs) = some (int64 v, vs)

-- The step, and the plan, which a step below 0 changes.
abbrev pub set_step : Plan → ℤ → ℤ × Plan
set_step id (pos zero) = (pos 1, id)
set_step id (pos (suc n)) = (pos (suc n), id)
set_step id (negsuc n) =
    (wrap (pos (suc n)), if id.ascending then id else record id { descending = true })

-- cur.mnValue and cur.mxValue where there may be a NULL
abbrev pub bounds : Bool → ℤ → ℤ → ℤ × ℤ
bounds true mn mx = (pos 1, pos 0)
bounds false mn mx = (mn, mx)

-- The last value of the series, if there is one.
abbrev pub last_value : ℤ → ℤ → ℤ → ℤ
last_value mn mx (pos zero) = mx
last_value mn mx (pos (suc n)) = wrap (mx -ℤ signed_rem (wrap (mx -ℤ mn)) (suc n))
last_value mn mx (negsuc n) = mx

-- if id.Num&8 != 0 { ... } else { ... }
abbrev pub positioned : Plan → ℤ → ℤ → ℤ → Cursor
positioned id mn mx step =
    if id.descending
    then record {
      is_desc = true;
      rowid = pos 1;
      value = last_value mn mx step;
      mn_value = mn;
      mx_value = mx;
      step = step;
    }
    else record {
      is_desc = false;
      rowid = pos 1;
      value = mn;
      mn_value = mn;
      mx_value = mx;
      step = step;
    }

-- Filter, which sets every field of the cursor
unfoldable pub filter : Plan → List Value → Option Cursor
filter id argv = do
  (mn, from_stop) ← int_arg id.start (pos 0) argv
  (mx, from_step) ← int_arg id.stop (pos 4294967295) from_stop
  (given, extra) ← int_arg id.step (pos 1) from_step
  some (
      positioned (set_step id given).1 (bounds (any_null argv) mn mx).0
        (bounds (any_null argv) mn mx).1 (set_step id given).0)

-- Next
unfoldable pub next : Cursor → Cursor
next c = record c {
  value = if c.is_desc then wrap (c.value -ℤ c.step) else wrap (c.value +ℤ c.step);
  rowid = wrap (c.rowid +ℤ pos 1);
}

-- Column; `none` is the panic on another column.
abbrev pub column : Cursor → ℕ → Option ℤ
column c i =
    if i == 0
    then some c.value
    else if i == 1
    then some c.mn_value
    else if i == 2
    then some c.mx_value
    else if i == 3
    then some c.step
    else none

-- RowID
abbrev pub row_id : Cursor → ℤ
row_id c = c.rowid

-- EOF
unfoldable pub eof : Cursor → Bool
eof c = if c.is_desc then ltb_ℤ c.value c.mn_value else ltb_ℤ c.mx_value c.value
