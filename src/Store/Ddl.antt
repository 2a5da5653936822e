-- ===== src/Store/Ddl.antt =====
-- The schema of a file, and the statements that change it (webhook_doorman/store/sqlite.py, `_SCHEMA`
-- and `_MIGRATIONS`), with what SQLite does on each.
use webhook_doorman.Prelude.{ℕ, Bool, Option, none, some, List, [], ◌∷◌, ◌++◌}
use webhook_doorman.Prelude.Tests.{if◌then◌else◌}
use webhook_doorman.Prelude.Lists.{any, find, update_where}
use webhook_doorman.Prelude.Text.{Text, text_eq}

-- A column with the rest of its declaration.
pub record Column : Type 0 where
  pub name : Text
  pub declaration : Text

pub record Table : Type 0 where
  pub name : Text
  pub columns : List Column

pub record Index : Type 0 where
  pub name : Text
  pub table : Text
  pub columns : List Text

-- What the file holds besides its rows; `version` is `PRAGMA user_version`, 0 in a new file.
pub record Schema : Type 0 where
  pub tables : List Table
  pub indexes : List Index
  pub version : ℕ

pub data Ddl : Type 0 where
  create_table : Table → Ddl
  create_index : Index → Ddl
  add_column : Text → Column → Ddl
  set_version : ℕ → Ddl

abbrev pub table_is : Text → Table → Bool
table_is name t = text_eq name t.name

abbrev pub index_is : Text → Index → Bool
index_is name i = text_eq name i.name

abbrev pub column_is : Text → Column → Bool
column_is name c = text_eq name c.name

-- `_table_exists`.
unfoldable pub table_exists : Text → Schema → Bool
table_exists name s = any (table_is name) s.tables

abbrev pub has_column : Text → Table → Bool
has_column name t = any (column_is name) t.columns

abbrev pub append_column : Column → Table → Table
append_column c t = record t { columns = t.columns ++ c ∷ [] }

-- `ALTER TABLE … ADD COLUMN`: an error if there is no such table, or if it has the column.
abbrev pub alter : Text → Column → Option Table → Schema → Option Schema
alter name c none s = none
alter name c (some t) s =
    if has_column c.name t
    then none
    else some (record s { tables = update_where (table_is name) (append_column c) s.tables })

-- One statement: `none` is an `sqlite3.OperationalError`. IF NOT EXISTS goes by the name alone.
unfoldable pub exec_ddl : Ddl → Schema → Option Schema
unfolding table_exists
exec_ddl (create_table t) s =
    if table_exists t.name s then some s else some (record s { tables = s.tables ++ t ∷ [] })
exec_ddl (create_index i) s =
    if any (index_is i.name) s.indexes
    then some s
    else if table_exists i.table s
    then some (record s { indexes = s.indexes ++ i ∷ [] })
    else none
exec_ddl (add_column name c) s = alter name c (find (table_is name) s.tables) s
exec_ddl (set_version n) s = some (record s { version = n })

-- A transaction: all of its statements or, if one raises, none.
unfoldable pub exec_all : List Ddl → Schema → Option Schema
unfolding exec_ddl
exec_all [] s = some s
exec_all (d ∷ ds) s = elim (exec_ddl d s) [ none ↦ none | some s' ↦ exec_all ds s' ]
