-- ===== src/OpType.antt =====
-- op_type.go: the statements and actions that SQLite tells apart.
use Prim.Native.String
use Prim.Native.String.{String}
use go_sqlite.Base.Int.{ℤ}

pub data OpType : Type 0 where
  op_create_index op_create_table op_create_temp_index op_create_temp_table : OpType
  op_create_temp_trigger op_create_temp_view op_create_trigger op_create_view : OpType
  op_delete op_drop_index op_drop_table op_drop_temp_index : OpType
  op_drop_temp_table op_drop_temp_trigger op_drop_temp_view op_drop_trigger : OpType
  op_drop_view op_insert op_pragma op_read : OpType
  op_select op_transaction op_update op_attach : OpType
  op_detach op_alter_table op_reindex op_analyze : OpType
  op_create_vtable op_drop_vtable op_function op_savepoint : OpType
  op_copy op_recursive : OpType
  unknown_op : ℤ → OpType

-- (OpType).String, with the digits that %d prints
abbrev pub op_string : (ℤ → String) → OpType → String
op_string decimal op_create_index = "SQLITE_CREATE_INDEX"
op_string decimal op_create_table = "SQLITE_CREATE_TABLE"
op_string decimal op_create_temp_index = "SQLITE_CREATE_TEMP_INDEX"
op_string decimal op_create_temp_table = "SQLITE_CREATE_TEMP_TABLE"
op_string decimal op_create_temp_trigger = "SQLITE_CREATE_TEMP_TRIGGER"
op_string decimal op_create_temp_view = "SQLITE_CREATE_TEMP_VIEW"
op_string decimal op_create_trigger = "SQLITE_CREATE_TRIGGER"
op_string decimal op_create_view = "SQLITE_CREATE_VIEW"
op_string decimal op_delete = "SQLITE_DELETE"
op_string decimal op_drop_index = "SQLITE_DROP_INDEX"
op_string decimal op_drop_table = "SQLITE_DROP_TABLE"
op_string decimal op_drop_temp_index = "SQLITE_DROP_TEMP_INDEX"
op_string decimal op_drop_temp_table = "SQLITE_DROP_TEMP_TABLE"
op_string decimal op_drop_temp_trigger = "SQLITE_DROP_TEMP_TRIGGER"
op_string decimal op_drop_temp_view = "SQLITE_DROP_TEMP_VIEW"
op_string decimal op_drop_trigger = "SQLITE_DROP_TRIGGER"
op_string decimal op_drop_view = "SQLITE_DROP_VIEW"
op_string decimal op_insert = "SQLITE_INSERT"
op_string decimal op_pragma = "SQLITE_PRAGMA"
op_string decimal op_read = "SQLITE_READ"
op_string decimal op_select = "SQLITE_SELECT"
op_string decimal op_transaction = "SQLITE_TRANSACTION"
op_string decimal op_update = "SQLITE_UPDATE"
op_string decimal op_attach = "SQLITE_ATTACH"
op_string decimal op_detach = "SQLITE_DETACH"
op_string decimal op_alter_table = "SQLITE_ALTER_TABLE"
op_string decimal op_reindex = "SQLITE_REINDEX"
op_string decimal op_analyze = "SQLITE_ANALYZE"
op_string decimal op_create_vtable = "SQLITE_CREATE_VTABLE"
op_string decimal op_drop_vtable = "SQLITE_DROP_VTABLE"
op_string decimal op_function = "SQLITE_FUNCTION"
op_string decimal op_savepoint = "SQLITE_SAVEPOINT"
op_string decimal op_copy = "SQLITE_COPY"
op_string decimal op_recursive = "SQLITE_RECURSIVE"
op_string decimal (unknown_op n) = String.◌++◌ "OpType(" (String.◌++◌ (decimal n) ")")
