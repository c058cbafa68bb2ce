-- ===== src/Ext/IndexTypes.antt =====
-- vtable.go and index_constraint.go: what SQLite and the BestIndex function of a virtual table tell
-- each other. Left out are the fields that no table here reads or sets: the collation and the right
-- side of a constraint, the columns used, the string of an index.
use go_sqlite.Base.{ℕ, Bool, List}
use go_sqlite.Base.Int.{ℤ}

pub data IndexConstraintOp : Type 0 where
  index_constraint_eq index_constraint_gt index_constraint_le index_constraint_lt :
      IndexConstraintOp
  index_constraint_ge index_constraint_match index_constraint_like index_constraint_glob :
      IndexConstraintOp
  index_constraint_regexp index_constraint_ne index_constraint_is_not : IndexConstraintOp
  index_constraint_is_not_null index_constraint_is_null index_constraint_is : IndexConstraintOp
  index_constraint_limit index_constraint_offset : IndexConstraintOp
  other_op : ℕ → IndexConstraintOp

-- Columns count from 0; -1 is the rowid.
pub record IndexConstraint : Type 0 where
  pub column : ℤ
  pub op : IndexConstraintOp
  pub usable : Bool

pub record IndexOrderBy : Type 0 where
  pub order_column : ℤ
  pub desc : Bool

pub record IndexInputs : Type 0 where
  pub constraints : List IndexConstraint
  pub order_by : List IndexOrderBy

-- An argument index of 0: the constraint is not passed to Filter.
pub record IndexConstraintUsage : Type 0 where
  pub argv_index : ℕ
  pub omit : Bool

-- With the number of the index as a type that its table chooses.
pub record IndexOutputs (Num : Type 0) : Type 0 where
  pub constraint_usage : List IndexConstraintUsage
  pub id : Num
  pub order_by_consumed : Bool
  pub estimated_cost : ℕ
  pub estimated_rows : ℕ
