-- ===== src/Auth.antt =====
-- auth.go: what an authorizer is asked about, and what it may answer. The callback from C and the table
-- of authorizers are left out.
mod Tests
use Prim.Native.String
use Prim.Native.String.{String}
use text.Mathlib.Text.{◌==◌ as str_eq}
use go_sqlite.Base.{List, [], ◌∷◌, if◌then◌else◌}
use go_sqlite.Base.Int.{ℤ}
use go_sqlite.OpType.{
  OpType, op_string, op_alter_table, op_analyze, op_attach, op_create_index, op_create_table,
  op_create_temp_index, op_create_temp_table, op_create_temp_trigger, op_create_temp_view,
  op_create_trigger, op_create_view, op_create_vtable, op_delete, op_detach, op_drop_index,
  op_drop_table, op_drop_temp_index, op_drop_temp_table, op_drop_temp_trigger, op_drop_temp_view,
  op_drop_trigger, op_drop_view, op_drop_vtable, op_insert, op_pragma, op_read, op_reindex,
  op_savepoint, op_transaction, op_update,
}

pub data AuthResult : Type 0 where
  auth_result_ok auth_result_deny auth_result_ignore : AuthResult
  unknown_result : ℤ → AuthResult

-- (AuthResult).String
abbrev pub result_string : (ℤ → String) → AuthResult → String
result_string decimal auth_result_ok = "SQLITE_OK"
result_string decimal auth_result_deny = "SQLITE_DENY"
result_string decimal auth_result_ignore = "SQLITE_IGNORE"
result_string decimal (unknown_result n) = String.◌++◌ "AuthResult(" (String.◌++◌ (decimal n) ")")

pub record Action : Type 0 where
  pub op : OpType
  pub arg1 : String
  pub arg2 : String
  pub database : String
  pub trigger : String

-- (Action).Type and (Action).Accessor
abbrev pub action_type : Action → OpType
action_type a = a.op

abbrev pub action_accessor : Action → String
action_accessor a = a.trigger

-- (Action).Database, by the type of the action
abbrev pub action_database_of : OpType → Action → String
action_database_of op_detach a = a.arg1
action_database_of op_alter_table a = a.arg1
action_database_of _ a = a.database

abbrev pub action_database : Action → String
action_database a = action_database_of a.op a

-- (Action).Index, by the type of the action
abbrev pub action_index_of : OpType → Action → String
action_index_of op_create_index a = a.arg1
action_index_of op_create_temp_index a = a.arg1
action_index_of op_drop_index a = a.arg1
action_index_of op_drop_temp_index a = a.arg1
action_index_of op_reindex a = a.arg1
action_index_of _ a = ""

abbrev pub action_index : Action → String
action_index a = action_index_of a.op a

-- (Action).Table, by the type of the action
abbrev pub action_table_of : OpType → Action → String
action_table_of op_create_table a = a.arg1
action_table_of op_create_temp_table a = a.arg1
action_table_of op_delete a = a.arg1
action_table_of op_drop_table a = a.arg1
action_table_of op_drop_temp_table a = a.arg1
action_table_of op_insert a = a.arg1
action_table_of op_read a = a.arg1
action_table_of op_update a = a.arg1
action_table_of op_analyze a = a.arg1
action_table_of op_create_vtable a = a.arg1
action_table_of op_drop_vtable a = a.arg1
action_table_of op_create_index a = a.arg2
action_table_of op_create_temp_index a = a.arg2
action_table_of op_create_temp_trigger a = a.arg2
action_table_of op_create_trigger a = a.arg2
action_table_of op_drop_index a = a.arg2
action_table_of op_drop_temp_index a = a.arg2
action_table_of op_drop_temp_trigger a = a.arg2
action_table_of op_drop_trigger a = a.arg2
action_table_of op_alter_table a = a.arg2
action_table_of _ a = ""

abbrev pub action_table : Action → String
action_table a = action_table_of a.op a

-- (Action).Trigger, by the type of the action
abbrev pub action_trigger_of : OpType → Action → String
action_trigger_of op_create_temp_trigger a = a.arg1
action_trigger_of op_create_trigger a = a.arg1
action_trigger_of op_drop_temp_trigger a = a.arg1
action_trigger_of op_drop_trigger a = a.arg1
action_trigger_of _ a = ""

abbrev pub action_trigger : Action → String
action_trigger a = action_trigger_of a.op a

-- (Action).View, by the type of the action
abbrev pub action_view_of : OpType → Action → String
action_view_of op_create_temp_view a = a.arg1
action_view_of op_create_view a = a.arg1
action_view_of op_drop_temp_view a = a.arg1
action_view_of op_drop_view a = a.arg1
action_view_of _ a = ""

abbrev pub action_view : Action → String
action_view a = action_view_of a.op a

-- (Action).Pragma, by the type of the action
abbrev pub action_pragma_of : OpType → Action → String
action_pragma_of op_pragma a = a.arg1
action_pragma_of _ a = ""

abbrev pub action_pragma : Action → String
action_pragma a = action_pragma_of a.op a

-- (Action).PragmaArg, by the type of the action
abbrev pub action_pragma_arg_of : OpType → Action → String
action_pragma_arg_of op_pragma a = a.arg2
action_pragma_arg_of _ a = ""

abbrev pub action_pragma_arg : Action → String
action_pragma_arg a = action_pragma_arg_of a.op a

-- (Action).Column, by the type of the action
abbrev pub action_column_of : OpType → Action → String
action_column_of op_read a = a.arg2
action_column_of op_update a = a.arg2
action_column_of _ a = ""

abbrev pub action_column : Action → String
action_column a = action_column_of a.op a

-- (Action).Operation, by the type of the action
abbrev pub action_operation_of : OpType → Action → String
action_operation_of op_transaction a = a.arg1
action_operation_of op_savepoint a = a.arg1
action_operation_of _ a = ""

abbrev pub action_operation : Action → String
action_operation a = action_operation_of a.op a

-- (Action).File, by the type of the action
abbrev pub action_file_of : OpType → Action → String
action_file_of op_attach a = a.arg1
action_file_of _ a = ""

abbrev pub action_file : Action → String
action_file a = action_file_of a.op a

-- (Action).Module, by the type of the action
abbrev pub action_module_of : OpType → Action → String
action_module_of op_create_vtable a = a.arg2
action_module_of op_drop_vtable a = a.arg2
action_module_of _ a = ""

abbrev pub action_module : Action → String
action_module a = action_module_of a.op a

-- (Action).Savepoint, by the type of the action
abbrev pub action_savepoint_of : OpType → Action → String
action_savepoint_of op_savepoint a = a.arg2
action_savepoint_of _ a = ""

abbrev pub action_savepoint : Action → String
action_savepoint a = action_savepoint_of a.op a

-- for _, p := range params
abbrev pub write_params : List (String × String) → String
write_params [] = ""
write_params ((name, given) ∷ ps) =
    let rest = write_params ps in
    if str_eq given ""
    then rest
    else String.◌++◌ " " (String.◌++◌ name (String.◌++◌ ":" (String.◌++◌ given rest)))

-- (Action).String
abbrev pub action_string : (ℤ → String) → Action → String
action_string decimal a = String.◌++◌ (op_string decimal a.op) (
    write_params (
      ("database", action_database a)
      ∷ ("file", action_file a)
      ∷ ("trigger", action_trigger a)
      ∷ ("index", action_index a)
      ∷ ("table", action_table a)
      ∷ ("view", action_view a)
      ∷ ("module", action_module a)
      ∷ ("column", action_column a)
      ∷ ("operation", action_operation a)
      ∷ ("savepoint", action_savepoint a)
      ∷ ("pragma", action_pragma a)
      ∷ ("arg", action_pragma_arg a)
      ∷ []))
