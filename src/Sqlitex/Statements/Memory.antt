-- ===== src/Sqlitex/Statements/Memory.antt =====
-- Statements over a list of numbers that they yield, one column each. A statement is its number of
-- parameters, of which the second is named "$b". It shows that `StatementLaws` can be met, and runs
-- the tests.

use go_sqlite.Base.{
  ℕ, suc, ◌≡◌, refl, Bool, true, false, Option, none, some, List, [], ◌∷◌, length, take,
  if◌then◌else◌, ◌==◌, arith,
}
use go_sqlite.Base.Int.{pos}
use go_sqlite.Errors.{Result, ok}
use go_sqlite.Sqlitex.Statements.{Statements, StatementLaws, Binding}

pub record Table : Type 0 where
  pub left : List ℕ
  pub current : ℕ
  pub values : ℕ → Option (Binding ℕ)
  -- What a callback has kept, the latest first.
  pub seen : List ℕ

abbrev step_on : List ℕ → Table → Result Bool × Table
step_on [] t = (ok false, t)
step_on (n ∷ ns) t = (ok true, record t { left = ns; current = n })

abbrev pub table : Statements
table = record {
  Float = ℕ;
  Stmt = ℕ;
  World = Table;
  prepare = λ q t. (ok 2, t);
  prepare_transient = λ q t. (ok (2, 0), t);
  finalize = λ s t. (none, t);
  bind_param_count = λ s. s;
  bind_param_name = λ s i. if i == 2 then "$b" else "";
  bind = λ s i b t. record t { values = λ j. if j == i then some b else t.values j };
  step = λ s t. step_on t.left t;
  reset = λ s t. (none, t);
  column_int64 = λ s i t. pos t.current;
  column_text = λ s i t. "";
  column_float = λ s i t. t.current;
  column_bytes = λ s i n t. take n (t.current ∷ []);
  trim_space = λ s. s;
  decimal = λ n. "n";
  binds_went = λ s t. true;
  bound = λ s i t. t.values i;
  rows_left = λ s t. length t.left;
}

row_taken :
    (t : Table)
    → (step_on t.left t).0 ≡ ok true
    → length t.left ≡ suc (length (step_on t.left t).1.left)
row_taken t e = ground arith

rows_done : (t : Table) → (step_on t.left t).0 ≡ ok false → length t.left ≡ 0
rows_done t e = ground arith

pub table_laws : StatementLaws table
table_laws = record {
  bound_self = λ s i b t e. ground arith;
  bound_other = λ s i j b t ne. ground arith;
  row_taken = λ s t e. row_taken t e;
  rows_done = λ s t e. rows_done t e;
  went_before = λ s i b t e. refl;
  failure_shows = λ s t row e. refl;
}
