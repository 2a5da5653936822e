-- ===== src/Store/Start/Interrupted.antt =====
-- What a start promises of any file, and the first start of a new file when a crash cuts it
-- (webhook_doorman/store/sqlite.py, `_apply_schema`).
use webhook_doorman.Prelude.{
  ℕ, zero, suc, ◌≤◌, ◌<◌, ◌≡◌, refl, ◌∙◌, ap, inl, inr, true, false, Option, none, some, List, [],
  ◌∷◌, ◌++◌, map, arith,
}
use webhook_doorman.Prelude.Tests.{ltb, Bool-cases, Option-cases}
use webhook_doorman.Prelude.Lists.{length}
use webhook_doorman.Prelude.Text.{codes, text_eq}
use webhook_doorman.Store.Ddl.{
  Ddl, Table, Index, Schema, set_version, table_exists, exec_ddl, exec_all,
}
use webhook_doorman.Store.Schema.{script, schema_version, third_migration}
use webhook_doorman.Store.Start.{
  Opening, opened, store_error, raised, refuse, transactions, current_version, plan, exec_each,
  commit_some, apply_schema, crashed_start, single,
}
use webhook_doorman.Store.Start.Release.{file, empty_file}
use webhook_doorman.Store.Start.Migrated.{to_second, to_third, crashed_starts}

-- A file from which no start gets on: the first transaction of its upgrade raises.
record IsStuck (s : Schema) : Type 0 where
  planned : plan s ≡ transactions (some 1) (to_second ∷ to_third ∷ [])
  fails : exec_all to_second s ≡ none

commit_some_stuck :
    (k : ℕ) (t : List Ddl) (ts : List (List Ddl)) (s : Schema)
    → exec_all t s ≡ none
    → commit_some k (t ∷ ts) s ≡ s
unfolding commit_some
commit_some_stuck zero t ts s e = refl
commit_some_stuck (suc k) t ts s e = rw (e, commit_some) refl

crashed_start_stuck : (k : ℕ) (s : Schema) → IsStuck s → crashed_start k s ≡ s
unfolding crashed_start
crashed_start_stuck k s h = rw (h.planned) (commit_some_stuck k to_second (to_third ∷ []) s h.fails)

crashed_starts_stuck : (ks : List ℕ) (s : Schema) → IsStuck s → crashed_starts ks s ≡ s
crashed_starts_stuck [] s h = refl
crashed_starts_stuck (k ∷ ks) s h =
    ap (crashed_starts ks) (crashed_start_stuck k s h) ∙ crashed_starts_stuck ks s h

apply_schema_stuck : (s : Schema) → IsStuck s → apply_schema s ≡ (raised, s)
unfolding apply_schema
apply_schema_stuck s h = rw (h.planned, exec_each, h.fails) refl

cut_first_start : (k : ℕ) → 0 < k → k ≤ length script → IsStuck (crashed_start k empty_file)
unfolding crashed_start script text_eq
cut_first_start zero h l = absurd (omega arith)
cut_first_start (suc zero) h l = record { planned = refl; fails = refl }
cut_first_start (suc (suc zero)) h l = record { planned = refl; fails = refl }
cut_first_start (suc (suc (suc zero))) h l = record { planned = refl; fails = refl }
cut_first_start (suc (suc (suc (suc zero)))) h l = record { planned = refl; fails = refl }
cut_first_start (suc (suc (suc (suc (suc zero))))) h l = record { planned = refl; fails = refl }
cut_first_start (suc (suc (suc (suc (suc (suc zero)))))) h l = record {
  planned = refl;
  fails = refl;
}
cut_first_start (suc (suc (suc (suc (suc (suc (suc zero))))))) h l = record {
  planned = refl;
  fails = refl;
}
cut_first_start (suc (suc (suc (suc (suc (suc (suc (suc zero)))))))) h l = record {
  planned = refl;
  fails = refl;
}
cut_first_start (suc (suc (suc (suc (suc (suc (suc (suc (suc zero))))))))) h l = record {
  planned = refl;
  fails = refl;
}
cut_first_start (suc (suc (suc (suc (suc (suc (suc (suc (suc (suc zero)))))))))) h l = record {
  planned = refl;
  fails = refl;
}
cut_first_start (suc (suc (suc (suc (suc (suc (suc (suc (suc (suc (suc k))))))))))) h l =
    absurd (omega arith)

-- A crash in the first start of a new file bricks it: after any of the script's statements but
-- before the version is written, the tables are there and the version is not, which reads as the
-- baseline, and its upgrade raises on a column that is there already. So after any further starts,
-- crashed or not, every start raises and leaves the file as the crash did.
pub cut_first_start_raises :
    (k : ℕ) (ks : List ℕ)
    → 0 < k
    → k ≤ length script
    → apply_schema (crashed_starts ks (crashed_start k empty_file))
      ≡ (raised, crashed_start k empty_file)
cut_first_start_raises k ks h l =
    let stuck : IsStuck (crashed_start k empty_file) = cut_first_start k h l in
    ap apply_schema (crashed_starts_stuck ks (crashed_start k empty_file) stuck)
    ∙ apply_schema_stuck (crashed_start k empty_file) stuck

-- A transaction that writes the version last ends in that version.
exec_all_version :
    (ds : List Ddl) (n : ℕ) (s s' : Schema)
    → exec_all (ds ++ set_version n ∷ []) s ≡ some s'
    → s'.version ≡ n
unfolding exec_all exec_ddl
exec_all_version [] n s s' h = cc
exec_all_version (d ∷ ds) n s s' h = elim (Option-cases (exec_ddl d s)) [
  | inl fails ↦ absurd (cc (rw (fails, exec_all) at h))
  | inr (s1, e) ↦ exec_all_version ds n s1 s' (rw (e, exec_all) at h)
]

exec_each_version :
    (from : Option ℕ) (ts : List (List Ddl)) (ds : List Ddl) (n : ℕ) (s : Schema) (o : Option ℕ)
    → (exec_each from (ts ++ (ds ++ set_version n ∷ []) ∷ []) s).0 ≡ opened o
    → (exec_each from (ts ++ (ds ++ set_version n ∷ []) ∷ []) s).1.version ≡ n
unfolding exec_each
exec_each_version from [] ds n s o = elim (Option-cases (exec_all (ds ++ set_version n ∷ []) s)) [
  | inl fails ↦ rw (exec_each, fails) (λ h. absurd (cc))
  | inr (s', e) ↦ rw (exec_each, e) (λ h. exec_all_version ds n s s' e)
]
exec_each_version from (t ∷ ts) ds n s o = elim (Option-cases (exec_all t s)) [
  | inl fails ↦ rw (exec_each, fails) (λ h. absurd (cc))
  | inr (s', e) ↦ rw (exec_each, e) (exec_each_version from ts ds n s' o)
]

-- What holds of a start: a newer file is refused and left, and only a current one is opened.
pub record IsHonest (s : Schema) (r : Opening × Schema) : Type 0 where
  pub refuses :
      table_exists (codes "events") s ≡ true → schema_version < s.version → r ≡ (store_error, s)
  pub current : (o : Option ℕ) → r.0 ≡ opened o → r.1.version ≡ schema_version

planned-IsHonest :
    (from : Option ℕ) (ts : List (List Ddl)) (ds : List Ddl) (s : Schema)
    → (table_exists (codes "events") s ≡ true → s.version ≤ schema_version)
    → IsHonest s (exec_each from (ts ++ (ds ++ set_version schema_version ∷ []) ∷ []) s)
planned-IsHonest from ts ds s old = record {
  refuses = λ h newer. absurd (omega (arith, old h));
  current = λ o. exec_each_version from ts ds schema_version s o;
}

plan_newer : (s : Schema) → table_exists (codes "events") s ≡ true → 3 < s.version → plan s ≡ refuse
unfolding plan schema_version
plan_newer s h newer =
    let known : current_version s ≡ s.version = ground arith in
    let above : ltb 3 s.version ≡ true = ground arith in rw (h, known, above) refl

present-IsHonest :
    (tables : List Table) (indexes : List Index) (version : ℕ)
    → table_exists (codes "events") (file tables indexes version) ≡ true
    → IsHonest (file tables indexes version) (apply_schema (file tables indexes version))
unfolding apply_schema schema_version
present-IsHonest tables indexes zero h =
    rw h (planned-IsHonest (some 1) (to_second ∷ []) third_migration _ (λ e. omega arith))
present-IsHonest tables indexes (suc zero) h =
    rw h (planned-IsHonest (some 1) (to_second ∷ []) third_migration _ (λ e. omega arith))
present-IsHonest tables indexes (suc (suc zero)) h =
    rw h (planned-IsHonest (some 2) [] third_migration _ (λ e. omega arith))
present-IsHonest tables indexes (suc (suc (suc zero))) h =
    rw h (record { refuses = λ e newer. absurd (omega arith); current = λ o e. refl })
present-IsHonest tables indexes (suc (suc (suc (suc n)))) h =
    rw (plan_newer (file tables indexes (suc (suc (suc (suc n))))) h (omega arith))
      (record { refuses = λ e newer. refl; current = λ o e. absurd (cc) })

absent-IsHonest :
    (s : Schema) → table_exists (codes "events") s ≡ false → IsHonest s (apply_schema s)
unfolding apply_schema schema_version
absent-IsHonest s h = rw h (planned-IsHonest none (map single script) [] s (λ e. absurd (cc)))

-- A start never opens a file at another version than the program's, whatever is in the file; and a
-- file of a newer version, with the tables in it, is refused and left as it is.
pub apply_schema-IsHonest : (s : Schema) → IsHonest s (apply_schema s)
apply_schema-IsHonest s = elim (Bool-cases (table_exists (codes "events") s)) [
  | inl there ↦ present-IsHonest s.tables s.indexes s.version there
  | inr missing ↦ absent-IsHonest s missing
]
