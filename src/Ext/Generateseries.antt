-- ===== src/Ext/Generateseries.antt =====
-- ext/generateseries/generateseries.go: the table of the numbers from a start to a stop by a step. The
-- flags in an index number and in a mask are a record of their bits. An int64 is an integer that
-- `wrap` has cut to 64 bits. Registering the table and opening a cursor keep no state.
pub mod Cursor
pub mod Rows
pub mod Series
pub mod Nulls
pub mod Planned
mod Tests
use go_sqlite.Base.{
  ℕ, zero, suc, ◌+◌, ◌%◌, Bool, true, false, ◌&&◌, ◌||◌, not, Option, none, some, List, [], ◌∷◌,
  map, set, if◌then◌else◌,
}
use go_sqlite.Base.Int.{ℤ, pos, negsuc, ◌+ℤ◌, ◌-ℤ◌, ltb_ℤ, is_nat, wrap}
use go_sqlite.Errors.{Error, sqlite, message, result_constraint, Result, ok, err}
use go_sqlite.Ext.IndexTypes.{
  IndexConstraint, IndexConstraintOp, index_constraint_eq, IndexInputs, IndexOrderBy,
  IndexConstraintUsage, IndexOutputs,
}

-- The columns behind `value`, and which of them a column number is; SQLite passes no number above 3.
pub data Hidden : Type 0 where
  start_column stop_column step_column : Hidden

abbrev pub hidden_column : ℤ → Option Hidden
hidden_column z =
    if is_nat z 1
    then some start_column
    else if is_nat z 2
    then some stop_column
    else if is_nat z 3
    then some step_column
    else none

-- The bits 1, 2, 4, 8 and 16.
pub record Plan : Type 0 where
  pub start : Bool
  pub stop : Bool
  pub step : Bool
  pub descending : Bool
  pub ascending : Bool

abbrev pub no_bits : Plan
no_bits = record {
  start = false;
  stop = false;
  step = false;
  descending = false;
  ascending = false;
}

-- num |= mask, with the mask of a column
abbrev pub with_bit : Hidden → Plan → Plan
with_bit start_column p = record p { start = true }
with_bit stop_column p = record p { stop = true }
with_bit step_column p = record p { step = true }

-- mask&^num != 0
abbrev pub outside : Plan → Plan → Bool
outside m p = (m.start && not p.start) || ((m.stop && not p.stop) || (m.step && not p.step))

-- aIdx; `none` is -1.
pub record Indexes : Type 0 where
  pub start_at : Option ℕ
  pub stop_at : Option ℕ
  pub step_at : Option ℕ

abbrev pub with_index : Hidden → ℕ → Indexes → Indexes
with_index start_column i x = record x { start_at = some i }
with_index stop_column i x = record x { stop_at = some i }
with_index step_column i x = record x { step_at = some i }

-- The variables of the first loop of BestIndex.
pub record Scan : Type 0 where
  pub idx_num : Plan
  pub start_seen : Bool
  pub unusable_mask : Plan
  pub a_idx : Indexes

abbrev pub is_start : Hidden → Bool
is_start start_column = true
is_start _ = false

abbrev pub is_eq : IndexConstraintOp → Bool
is_eq index_constraint_eq = true
is_eq _ = false

abbrev pub scan_usable : ℕ → IndexConstraint → Hidden → Scan → Scan
scan_usable i c col s =
    if not c.usable
    then record s { unusable_mask = with_bit col s.unusable_mask }
    else if is_eq c.op
    then record s { idx_num = with_bit col s.idx_num; a_idx = with_index col i s.a_idx }
    else s

abbrev pub scan_column : ℕ → IndexConstraint → Option Hidden → Scan → Scan
scan_column i c none s = s
scan_column i c (some col) s =
    scan_usable i c col (record s { start_seen = is_start col || s.start_seen })

-- for i, c := range inputs.Constraints
unfoldable pub scan : ℕ → List IndexConstraint → Scan → Scan
scan i [] s = s
scan i (c ∷ cs) s = scan (suc i) cs (scan_column i c (hidden_column c.column) s)

abbrev pub nothing_scanned : Scan
nothing_scanned = record {
  idx_num = no_bits;
  start_seen = false;
  unusable_mask = no_bits;
  a_idx = record { start_at = none; stop_at = none; step_at = none };
}

-- for _, j := range aIdx
abbrev pub number_args : ℕ → List (Option ℕ) → List IndexConstraintUsage → List IndexConstraintUsage
number_args n [] us = us
number_args n (none ∷ js) us = number_args n js us
number_args n (some j ∷ js) us =
    number_args (suc n) js (set us j (record { argv_index = suc n; omit = true }))

abbrev pub unnumbered : IndexConstraint → IndexConstraintUsage
unnumbered c = record { argv_index = 0; omit = false }

-- The order that the first term asks for: idxNum and the outputs are changed.
abbrev pub consume_order : List IndexOrderBy → Plan × IndexOutputs Plan → Plan × IndexOutputs Plan
consume_order [] (num, o) = (num, o)
consume_order (t ∷ ts) (num, o) =
    if is_nat t.order_column 0
    then (
      (if t.desc then record num { descending = true } else record num { ascending = true }),
      record o { order_by_consumed = true },
    )
    else (num, o)

-- if idxNum&3 == 3 { ... } else { ... }
abbrev pub estimate : IndexInputs → Plan × IndexOutputs Plan → Plan × IndexOutputs Plan
estimate inputs (num, o) =
    if num.start && num.stop
    then consume_order inputs.order_by
        (num, record o { estimated_cost = if num.step then 1 else 2; estimated_rows = 1000 })
    else (num, record o { estimated_rows = 2147483647 })

abbrev pub missing_argument : Error
missing_argument = message "first argument to \"generate_series()\" missing or unusable"

-- The outputs before the checks and the estimates
abbrev pub outputs_of : IndexInputs → Scan → IndexOutputs Plan
outputs_of inputs s = record {
  constraint_usage =
      number_args 0 (s.a_idx.start_at ∷ s.a_idx.stop_at ∷ s.a_idx.step_at ∷ [])
        (map unnumbered inputs.constraints);
  id = s.idx_num;
  order_by_consumed = false;
  estimated_cost = 0;
  estimated_rows = 0;
}

-- BestIndex, behind its first loop
abbrev pub decide : IndexInputs → Scan → Result (IndexOutputs Plan)
decide inputs s =
    if not s.start_seen
    then err missing_argument
    else if outside s.unusable_mask s.idx_num
    then err (sqlite result_constraint)
    else ok (estimate inputs (s.idx_num, outputs_of inputs s)).1

-- BestIndex
unfoldable pub best_index : IndexInputs → Result (IndexOutputs Plan)
best_index inputs = decide inputs (scan 0 inputs.constraints nothing_scanned)
