-- ===== src/Auth/Tests.antt =====
-- The actions of some statements.
use go_sqlite.Base.{◌≡◌, refl}
use go_sqlite.OpType.{op_read, op_alter_table, op_create_trigger}
use go_sqlite.Auth.{Action, action_string}

abbrev read_column : Action
read_column = record { op = op_read; arg1 = "tab"; arg2 = "col"; database = "main"; trigger = "" }

prints_read : action_string (λ z. "") read_column ≡ "SQLITE_READ database:main table:tab column:col"
prints_read = refl

prints_alter :
    action_string (λ z. "") (record read_column { op = op_alter_table; arg1 = "temp" })
    ≡ "SQLITE_ALTER_TABLE database:temp table:col"
prints_alter = refl

prints_trigger :
    action_string (λ z. "") (record read_column { op = op_create_trigger })
    ≡ "SQLITE_CREATE_TRIGGER database:main trigger:tab table:col"
prints_trigger = refl
