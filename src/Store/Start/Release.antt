-- ===== src/Store/Start/Release.antt =====
-- The files that the releases made (webhook_doorman/store/sqlite.py, `_SCHEMA` and `_MIGRATIONS`), and
-- what an index that a migration adds leaves of the others.
use webhook_doorman.Prelude.{ℕ, ◌≤◌, ◌≡◌, refl, inl, inr, true, List, [], ◌∷◌, ◌++◌, arith}
use webhook_doorman.Prelude.Tests.{if◌then◌else◌, Bool-cases}
use webhook_doorman.Prelude.Lists.{any, any-append, All, All-imp}
use webhook_doorman.Prelude.Text.{text_eq}
use webhook_doorman.Store.Ddl.{Table, Index, Schema, index_is}
use webhook_doorman.Store.Schema.{
  events_table, untrusted_fields_column, detection_column, quarantined_column, sinks_column,
  deliveries_table, dlq_table, meta_table, status_index, dedup_index, received_index, due_index,
  delivery_index, exhausted_index,
}

abbrev pub file : List Table → List Index → ℕ → Schema
file tables indexes version = record { tables = tables; indexes = indexes; version = version }

-- A file with nothing in it.
abbrev pub empty_file : Schema
empty_file = file [] [] 0

-- The tables that the releases made.
abbrev pub first_tables : List Table
first_tables = events_table [] ∷ deliveries_table ∷ dlq_table ∷ []

abbrev pub second_tables : List Table
second_tables =
    events_table (untrusted_fields_column ∷ detection_column ∷ quarantined_column ∷ [])
    ∷ deliveries_table
    ∷ dlq_table
    ∷ []

abbrev pub third_tables : List Table
third_tables =
    events_table
      (untrusted_fields_column ∷ detection_column ∷ quarantined_column ∷ sinks_column ∷ [])
    ∷ deliveries_table
    ∷ dlq_table
    ∷ meta_table
    ∷ []

abbrev pub first_indexes : List Index
first_indexes = dedup_index ∷ received_index ∷ due_index ∷ delivery_index ∷ exhausted_index ∷ []

abbrev pub IsIndexed : List Index → Index → Type 0
IsIndexed indexes i = any (index_is i.name) indexes ≡ true

-- A file of a release: its tables, its version (the first releases did not always write one), and
-- its indexes, in any order.
pub data IsReleased (s : Schema) : Type 0 where
  first :
      (indexes : List Index) (version : ℕ)
      → version ≤ 1
      → All (IsIndexed indexes) first_indexes
      → s ≡ file first_tables indexes version
      → IsReleased s
  second :
      (indexes : List Index)
      → All (IsIndexed indexes) (status_index ∷ first_indexes)
      → s ≡ file second_tables indexes 2
      → IsReleased s
  third :
      (indexes : List Index)
      → All (IsIndexed indexes) (status_index ∷ first_indexes)
      → s ≡ file third_tables indexes 3
      → IsReleased s

-- `CREATE INDEX IF NOT EXISTS`.
abbrev pub with_status : List Index → List Index
with_status indexes =
    if any (index_is status_index.name) indexes then indexes else indexes ++ status_index ∷ []

with_status-kept :
    (indexes : List Index) (i : Index) → IsIndexed indexes i → IsIndexed (with_status indexes) i
with_status-kept indexes i h = elim (Bool-cases (any (index_is status_index.name) indexes)) [
  | inl there ↦ rw there h
  | inr new ↦ rw (new, any-append (index_is i.name) indexes (status_index ∷ []), h) refl
]

with_status-IsIndexed : (indexes : List Index) → IsIndexed (with_status indexes) status_index
unfolding text_eq
with_status-IsIndexed indexes = elim (Bool-cases (any (index_is status_index.name) indexes)) [
  | inl there ↦ rw there there
  | inr new ↦
      rw (new, any-append (index_is status_index.name) indexes (status_index ∷ [])) (ground arith)
]

pub IsReleased-indexes :
    (indexes : List Index)
    → All (IsIndexed indexes) first_indexes
    → All (IsIndexed (with_status indexes)) (status_index ∷ first_indexes)
IsReleased-indexes indexes h = (
  with_status-IsIndexed indexes,
  All-imp (IsIndexed indexes) (IsIndexed (with_status indexes)) first_indexes
      (with_status-kept indexes) h,
)
