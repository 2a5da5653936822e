-- ===== src/Store/Start/Migrated.antt =====
-- What a start makes of a file of an earlier release (webhook_doorman/store/sqlite.py,
-- `_apply_schema`), also after starts that crashed.
use webhook_doorman.Prelude.{
  ℕ, zero, suc, ◌≤◌, ◌≡◌, refl, sym, subst, inl, inr, Option, none, some, List, [], ◌∷◌, ◌++◌,
  arith,
}
use webhook_doorman.Prelude.Tests.{Bool-cases}
use webhook_doorman.Prelude.Lists.{any, All}
use webhook_doorman.Prelude.Text.{text_eq}
use webhook_doorman.Store.Ddl.{Index, Ddl, Schema, set_version, index_is, exec_all}
use webhook_doorman.Store.Schema.{status_index, second_migration, third_migration, schema_version}
use webhook_doorman.Store.Start.{
  Opening, opened, transactions, plan, exec_each, commit_some, apply_schema, crashed_start,
}
use webhook_doorman.Store.Start.Release.{
  file, empty_file, first_tables, second_tables, third_tables, first_indexes, IsIndexed, IsReleased,
  first, second, third, with_status, IsReleased-indexes,
}

abbrev pub to_second : List Ddl
to_second = second_migration ++ set_version 2 ∷ []

abbrev pub to_third : List Ddl
to_third = third_migration ++ set_version 3 ∷ []

plan_first :
    (indexes : List Index) (version : ℕ)
    → version ≤ 1
    → plan (file first_tables indexes version) ≡ transactions (some 1) (to_second ∷ to_third ∷ [])
unfolding plan text_eq
plan_first indexes zero h = refl
plan_first indexes (suc zero) h = refl
plan_first indexes (suc (suc n)) h = absurd (omega arith)

plan_second :
    (indexes : List Index)
    → plan (file second_tables indexes 2) ≡ transactions (some 2) (to_third ∷ [])
unfolding plan text_eq
plan_second indexes = refl

plan_third : (indexes : List Index) → plan (file third_tables indexes 3) ≡ transactions none []
unfolding plan text_eq
plan_third indexes = refl

exec_second :
    (indexes : List Index) (version : ℕ)
    → exec_all to_second (file first_tables indexes version)
      ≡ some (file second_tables (with_status indexes) 2)
unfolding exec_all text_eq
exec_second indexes version = elim (Bool-cases (any (index_is status_index.name) indexes)) [
  | inl there ↦ rw there refl
  | inr new ↦ rw new refl
]

exec_third :
    (indexes : List Index)
    → exec_all to_third (file second_tables indexes 2) ≡ some (file third_tables indexes 3)
unfolding exec_all text_eq
exec_third indexes = refl

-- One transaction that goes through.
commit_some_step :
    (k : ℕ) (t : List Ddl) (ts : List (List Ddl)) (s s' : Schema)
    → exec_all t s ≡ some s'
    → commit_some (suc k) (t ∷ ts) s ≡ commit_some k ts s'
unfolding commit_some
commit_some_step k t ts s s' e = rw (e, commit_some) refl

exec_each_step :
    (from : Option ℕ) (t : List Ddl) (ts : List (List Ddl)) (s s' : Schema)
    → exec_all t s ≡ some s'
    → exec_each from (t ∷ ts) s ≡ exec_each from ts s'
unfolding exec_each
exec_each_step from t ts s s' e = rw (e, exec_each) refl

commit_none : (k : ℕ) (s : Schema) → commit_some k [] s ≡ s
unfolding commit_some
commit_none zero s = refl
commit_none (suc k) s = refl

commit_zero : (ts : List (List Ddl)) (s : Schema) → commit_some zero ts s ≡ s
unfolding commit_some
commit_zero ts s = refl

third_commits :
    (k : ℕ) (indexes : List Index)
    → All (IsIndexed indexes) (status_index ∷ first_indexes)
    → IsReleased (commit_some k [] (file third_tables indexes 3))
third_commits k indexes h = third indexes h (commit_none k (file third_tables indexes 3))

second_commits :
    (k : ℕ) (indexes : List Index)
    → All (IsIndexed indexes) (status_index ∷ first_indexes)
    → IsReleased (commit_some k (to_third ∷ []) (file second_tables indexes 2))
second_commits zero indexes h =
    second indexes h (commit_zero (to_third ∷ []) (file second_tables indexes 2))
second_commits (suc k) indexes h =
    subst IsReleased (sym (commit_some_step k to_third [] _ _ (exec_third indexes)))
      (third_commits k indexes h)

first_commits :
    (k : ℕ) (indexes : List Index) (version : ℕ)
    → version ≤ 1
    → All (IsIndexed indexes) first_indexes
    → IsReleased (commit_some k (to_second ∷ to_third ∷ []) (file first_tables indexes version))
first_commits zero indexes version v h =
    first indexes version v h
      (commit_zero (to_second ∷ to_third ∷ []) (file first_tables indexes version))
first_commits (suc k) indexes version v h =
    subst IsReleased
      (sym (commit_some_step k to_second (to_third ∷ []) _ _ (exec_second indexes version)))
      (second_commits k (with_status indexes) (IsReleased-indexes indexes h))

-- A crash leaves a file of some release.
crashed_start-IsReleased : (k : ℕ) (s : Schema) → IsReleased s → IsReleased (crashed_start k s)
unfolding crashed_start
crashed_start-IsReleased k s (first indexes version v h e) =
    rw (e, plan_first indexes version v) (first_commits k indexes version v h)
crashed_start-IsReleased k s (second indexes h e) =
    rw (e, plan_second indexes) (second_commits k indexes h)
crashed_start-IsReleased k s (third indexes h e) =
    rw (e, plan_third indexes) (third_commits k indexes h)

-- Starts that crash, one after the other, each after some number of committed transactions.
abbrev pub crashed_starts : List ℕ → Schema → Schema
crashed_starts [] s = s
crashed_starts (k ∷ ks) s = crashed_starts ks (crashed_start k s)

-- The store opens, on a file that is as a new one is but for the order of its indexes.
pub record IsUpToDate (r : Opening × Schema) : Type 0 where
  pub from : Option ℕ
  pub opens : r.0 ≡ opened from
  pub tables : r.1.tables ≡ (apply_schema empty_file).1.tables
  pub indexes : All (IsIndexed r.1.indexes) (apply_schema empty_file).1.indexes
  pub version : r.1.version ≡ schema_version

third-IsUpToDate :
    (from : Option ℕ) (indexes : List Index)
    → All (IsIndexed indexes) (status_index ∷ first_indexes)
    → IsUpToDate (exec_each from [] (file third_tables indexes 3))
unfolding apply_schema text_eq
third-IsUpToDate from indexes h = record {
  from = from;
  opens = refl;
  tables = refl;
  indexes = h;
  version = refl;
}

second-IsUpToDate :
    (from : Option ℕ) (indexes : List Index)
    → All (IsIndexed indexes) (status_index ∷ first_indexes)
    → IsUpToDate (exec_each from (to_third ∷ []) (file second_tables indexes 2))
second-IsUpToDate from indexes h =
    subst IsUpToDate (sym (exec_each_step from to_third [] _ _ (exec_third indexes)))
      (third-IsUpToDate from indexes h)

apply_schema-IsUpToDate : (s : Schema) → IsReleased s → IsUpToDate (apply_schema s)
unfolding apply_schema
apply_schema-IsUpToDate s (first indexes version v h e) =
    rw (e, plan_first indexes version v)
      (subst IsUpToDate
        (sym (
          exec_each_step (some 1) to_second (to_third ∷ []) (file first_tables indexes version) _
            (exec_second indexes version)))
        (second-IsUpToDate (some 1) (with_status indexes) (IsReleased-indexes indexes h)))
apply_schema-IsUpToDate s (second indexes h e) =
    rw (e, plan_second indexes) (second-IsUpToDate (some 2) indexes h)
apply_schema-IsUpToDate s (third indexes h e) =
    rw (e, plan_third indexes) (third-IsUpToDate none indexes h)

-- Upgrades survive crashes, and end where a new file starts. From a file of any release, after any
-- number of starts that crash, each after any number of committed transactions, a start that is let
-- finish opens the store, on the tables, the columns and the version of a new file, and with all of
-- its indexes.
pub crashed_starts-IsUpToDate :
    (ks : List ℕ) (s : Schema) → IsReleased s → IsUpToDate (apply_schema (crashed_starts ks s))
crashed_starts-IsUpToDate [] s h = apply_schema-IsUpToDate s h
crashed_starts-IsUpToDate (k ∷ ks) s h =
    crashed_starts-IsUpToDate ks (crashed_start k s) (crashed_start-IsReleased k s h)
