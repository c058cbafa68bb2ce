-- ===== src/Ext/Generateseries/Planned.antt =====
-- What BestIndex decides on, against the constraints that it is given.
use go_sqlite.Base.{◌≡◌, Bool, true, false, ◌&&◌, ◌||◌, not, Option, some, List, [], ◌∷◌}
use go_sqlite.Base.Int.{is_nat}
use go_sqlite.Errors.{sqlite, result_constraint, Result, ok, err}
use go_sqlite.Ext.IndexTypes.{IndexConstraint, IndexInputs, IndexOrderBy, IndexOutputs}
use go_sqlite.Ext.Generateseries.{
  Hidden, start_column, stop_column, step_column, hidden_column, Plan, outside, Scan, is_eq,
  missing_argument,
}

abbrev pub any : (IndexConstraint → Bool) → List IndexConstraint → Bool
any p [] = false
any p (c ∷ cs) = p c || any p cs

abbrev pub is_column : Hidden → Option Hidden → Bool
is_column start_column (some start_column) = true
is_column stop_column (some stop_column) = true
is_column step_column (some step_column) = true
is_column _ _ = false

abbrev pub on_column : Hidden → IndexConstraint → Bool
on_column col c = is_column col (hidden_column c.column)

-- An equality on the column that can be used, and a constraint on it that cannot.
abbrev pub wanted : Hidden → IndexConstraint → Bool
wanted col c = on_column col c && (c.usable && is_eq c.op)

abbrev pub unusable : Hidden → IndexConstraint → Bool
unusable col c = on_column col c && not c.usable

-- A bit for each column that has a constraint of a kind.
abbrev pub columns : (Hidden → IndexConstraint → Bool) → List IndexConstraint → Plan
columns p cs = record {
  start = any (p start_column) cs;
  stop = any (p stop_column) cs;
  step = any (p step_column) cs;
  descending = false;
  ascending = false;
}

-- ORDER BY value, in one of the directions, comes first.
abbrev pub by_value : List IndexOrderBy → Bool
by_value [] = false
by_value (t ∷ ts) = is_nat t.order_column 0

abbrev merge : Plan → Plan → Plan
merge p q = record {
  start = p.start || q.start;
  stop = p.stop || q.stop;
  step = p.step || q.step;
  descending = p.descending;
  ascending = p.ascending;
}

abbrev bits : Option Hidden → Bool → Plan
bits h b = record {
  start = is_column start_column h && b;
  stop = is_column stop_column h && b;
  step = is_column step_column h && b;
  descending = false;
  ascending = false;
}

-- What the first loop adds to its variables.
record Scanned (cs : List IndexConstraint) (s t : Scan) : Type 0 where
  num : t.idx_num ≡ merge s.idx_num (columns wanted cs)
  mask : t.unusable_mask ≡ merge s.unusable_mask (columns unusable cs)
  seen : t.start_seen ≡ (s.start_seen || any (on_column start_column) cs)

-- The outcomes, each with its reason.
pub data Planned (inputs : IndexInputs) : Result (IndexOutputs Plan) → Type 0 where
  no_start :
      any (on_column start_column) inputs.constraints ≡ false
      → Planned inputs (err missing_argument)
  blocked :
      any (on_column start_column) inputs.constraints ≡ true
      → outside (columns unusable inputs.constraints) (columns wanted inputs.constraints) ≡ true
      → Planned inputs (err (sqlite result_constraint))
  planned :
      {o : IndexOutputs Plan}
      → any (on_column start_column) inputs.constraints ≡ true
      → outside (columns unusable inputs.constraints) (columns wanted inputs.constraints) ≡ false
      → o.id ≡ columns wanted inputs.constraints
      → o.order_by_consumed ≡ (
          (any (wanted start_column) inputs.constraints
            && any (wanted stop_column) inputs.constraints)
          && by_value inputs.order_by)
      → Planned inputs (ok o)
