-- ===== src/Store/Start.antt =====
-- Opening a file (webhook_doorman/store/sqlite.py, `_apply_schema`). A statement outside BEGIN and
-- COMMIT is a transaction of its own; one that raises is rolled back, and so is one that a crash
-- cuts. `executescript` commits statement by statement.
pub mod Release
pub mod Migrated
pub mod Interrupted
pub mod Install
use webhook_doorman.Prelude.{
  ℕ, zero, suc, true, false, Option, none, some, List, [], ◌∷◌, ◌++◌, map,
}
use webhook_doorman.Prelude.Tests.{if◌then◌else◌, ltb, ◌==◌}
use webhook_doorman.Prelude.Text.{codes}
use webhook_doorman.Store.Ddl.{Schema, Ddl, set_version, table_exists, exec_all}
use webhook_doorman.Store.Schema.{script, migrations, schema_version}

-- A file that has the tables and no version is at the baseline.
abbrev pub current_version : Schema → ℕ
current_version s = if s.version == 0 then 1 else s.version

abbrev pub single : Ddl → List Ddl
single d = d ∷ []

-- One transaction for each version above the current one; the table is in the order of its targets.
unfoldable pub upgrades : ℕ → List (ℕ × List Ddl) → List (List Ddl)
upgrades current [] = []
upgrades current ((target, ds) ∷ rest) =
    let later = upgrades current rest in
    if ltb current target then (ds ++ set_version target ∷ []) ∷ later else later

-- What a start has to do: refuse a newer file, or run transactions, from a version if it upgrades.
pub data Plan : Type 0 where
  refuse : Plan
  transactions : Option ℕ → List (List Ddl) → Plan

unfoldable pub plan : Schema → Plan
unfolding table_exists script migrations schema_version upgrades
plan s =
    if table_exists (codes "events") s
    then if ltb schema_version (current_version s)
      then refuse
      else if current_version s == schema_version
      then transactions none []
      else transactions (some (current_version s)) (upgrades (current_version s) migrations)
    else transactions none (map single script ++ (set_version schema_version ∷ []) ∷ [])

-- `store_error` is the refusal, and `raised` an error of SQLite that `connect` passes on.
pub data Opening : Type 0 where
  opened : Option ℕ → Opening
  store_error raised : Opening

unfoldable pub exec_each : Option ℕ → List (List Ddl) → Schema → Opening × Schema
unfolding exec_all
exec_each from [] s = (opened from, s)
exec_each from (t ∷ ts) s = elim (exec_all t s) [
  | none ↦ (raised, s)
  | some s' ↦ exec_each from ts s'
]

abbrev pub follow : Plan → Schema → Opening × Schema
follow refuse s = (store_error, s)
follow (transactions from ts) s = exec_each from ts s

unfoldable pub apply_schema : Schema → Opening × Schema
unfolding plan exec_each
apply_schema s = follow (plan s) s

-- A start that a crash ends after at most `k` transactions are committed.
unfoldable pub commit_some : ℕ → List (List Ddl) → Schema → Schema
unfolding exec_all
commit_some zero ts s = s
commit_some (suc k) [] s = s
commit_some (suc k) (t ∷ ts) s = elim (exec_all t s) [ none ↦ s | some s' ↦ commit_some k ts s' ]

abbrev pub follow_some : ℕ → Plan → Schema → Schema
follow_some k refuse s = s
follow_some k (transactions from ts) s = commit_some k ts s

unfoldable pub crashed_start : ℕ → Schema → Schema
unfolding plan commit_some
crashed_start k s = follow_some k (plan s) s
