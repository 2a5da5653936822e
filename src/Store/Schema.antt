-- ===== src/Store/Schema.antt =====
-- The tables and indexes of a new file, and the migrations of an old one
-- (webhook_doorman/store/sqlite.py, `_SCHEMA`, `_MIGRATIONS` and `SCHEMA_VERSION`).
use webhook_doorman.Prelude.{ℕ, String, max, List, [], ◌∷◌}
use webhook_doorman.Prelude.Text.{Text, codes}
use webhook_doorman.Store.Ddl.{Column, Table, Index, Ddl, create_table, create_index, add_column}

abbrev pub column : String → String → Column
column name declaration = record { name = codes name; declaration = codes declaration }

abbrev pub events_table : List Column → Table
events_table added = record {
  name = codes "events";
  columns =
      column "id" "INTEGER PRIMARY KEY AUTOINCREMENT"
      ∷ column "source" "TEXT NOT NULL"
      ∷ column "delivery_id" "TEXT NOT NULL"
      ∷ column "event_type" "TEXT NOT NULL DEFAULT ''"
      ∷ column "summary" "TEXT NOT NULL DEFAULT ''"
      ∷ column "received_at" "TEXT NOT NULL"
      ∷ column "headers_json" "TEXT NOT NULL DEFAULT '{}'"
      ∷ column "body" "BLOB NOT NULL"
      ∷ column "context_json" "TEXT NOT NULL DEFAULT '{}'"
      ∷ column "verified" "INTEGER NOT NULL DEFAULT 1"
      ∷ column "status" "TEXT NOT NULL DEFAULT 'received'"
      ∷ added;
}

abbrev pub untrusted_fields_column : Column
untrusted_fields_column = column "untrusted_fields_json" "TEXT NOT NULL DEFAULT '[]'"

abbrev pub detection_column : Column
detection_column = column "detection_json" "TEXT"

abbrev pub quarantined_column : Column
quarantined_column = column "quarantined_at" "TEXT"

abbrev pub sinks_column : Column
sinks_column = column "sinks_json" "TEXT"

abbrev pub deliveries_table : Table
deliveries_table = record {
  name = codes "deliveries";
  columns =
      column "id" "INTEGER PRIMARY KEY AUTOINCREMENT"
      ∷ column "event_id" "INTEGER NOT NULL REFERENCES events (id) ON DELETE CASCADE"
      ∷ column "sink" "TEXT NOT NULL"
      ∷ column "attempt" "INTEGER NOT NULL DEFAULT 0"
      ∷ column "status" "TEXT NOT NULL DEFAULT 'pending'"
      ∷ column "response_code" "INTEGER"
      ∷ column "latency_ms" "INTEGER"
      ∷ column "error" "TEXT"
      ∷ column "next_attempt_at" "TEXT"
      ∷ column "updated_at" "TEXT NOT NULL"
      ∷ [];
}

abbrev pub dlq_table : Table
dlq_table = record {
  name = codes "dlq";
  columns =
      column "id" "INTEGER PRIMARY KEY AUTOINCREMENT"
      ∷ column "delivery_id" "INTEGER NOT NULL REFERENCES deliveries (id) ON DELETE CASCADE"
      ∷ column "exhausted_at" "TEXT NOT NULL"
      ∷ column "last_error" "TEXT"
      ∷ [];
}

abbrev pub meta_table : Table
meta_table = record {
  name = codes "meta";
  columns = column "key" "TEXT PRIMARY KEY" ∷ column "value" "TEXT NOT NULL" ∷ [];
}

abbrev pub index_on : String → String → List Text → Index
index_on name table columns = record { name = codes name; table = codes table; columns = columns }

abbrev pub status_index : Index
status_index = index_on "idx_events_status" "events" (codes "status" ∷ codes "id" ∷ [])

abbrev pub dedup_index : Index
dedup_index = index_on "idx_events_dedup" "events" (codes "source" ∷ codes "delivery_id" ∷ [])

abbrev pub received_index : Index
received_index = index_on "idx_events_received" "events" (codes "received_at" ∷ [])

abbrev pub due_index : Index
due_index =
    index_on "idx_deliveries_due" "deliveries" (codes "status" ∷ codes "next_attempt_at" ∷ [])

abbrev pub delivery_index : Index
delivery_index = index_on "idx_deliveries_event" "deliveries" (codes "event_id" ∷ [])

abbrev pub exhausted_index : Index
exhausted_index = index_on "idx_dlq_exhausted" "dlq" (codes "exhausted_at" ∷ [])

-- `_SCHEMA`.
unfoldable pub script : List Ddl
script =
    create_table (
      events_table
        (untrusted_fields_column ∷ detection_column ∷ quarantined_column ∷ sinks_column ∷ []))
    ∷ create_index status_index
    ∷ create_index dedup_index
    ∷ create_index received_index
    ∷ create_table deliveries_table
    ∷ create_index due_index
    ∷ create_index delivery_index
    ∷ create_table dlq_table
    ∷ create_index exhausted_index
    ∷ create_table meta_table
    ∷ []

-- `_MIGRATIONS[2]`.
abbrev pub second_migration : List Ddl
second_migration =
    add_column (codes "events") untrusted_fields_column
    ∷ add_column (codes "events") detection_column
    ∷ add_column (codes "events") quarantined_column
    ∷ create_index status_index
    ∷ []

-- `_MIGRATIONS[3]`.
abbrev pub third_migration : List Ddl
third_migration = add_column (codes "events") sinks_column ∷ create_table meta_table ∷ []

-- `_MIGRATIONS`, by target version.
unfoldable pub migrations : List (ℕ × List Ddl)
migrations = (2, second_migration) ∷ (3, third_migration) ∷ []

unfoldable pub last_version : List (ℕ × List Ddl) → ℕ
last_version [] = 0
last_version ((target, ds) ∷ rest) = max target (last_version rest)

-- `SCHEMA_VERSION`.
unfoldable pub schema_version : ℕ
unfolding last_version migrations
schema_version = last_version migrations
