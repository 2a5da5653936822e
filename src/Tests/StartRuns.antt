-- ===== src/Tests/StartRuns.antt =====
-- The stated properties of the start of the store, of redaction and of sanitising at small inputs.
use webhook_doorman.Prelude.{ℕ, ◌≤◌, ◌≡◌, refl, true, false, some, [], ◌∷◌, ◌++◌, arith}
use webhook_doorman.Prelude.Lists.{length, any, All}
use webhook_doorman.Prelude.Text.{Text, codes, text_eq, contains}
use webhook_doorman.Prelude.Utf8.{encode, encode_ignoring}
use webhook_doorman.Prelude.Sort.{sort_by}
use webhook_doorman.Json.{Fields, set_field}
use webhook_doorman.Models.{InboundEvent}
use webhook_doorman.Redaction.{replace, redactable, redact_text, walk_fields}
use webhook_doorman.Redaction.Stored.{redact_bytes}
use webhook_doorman.Redaction.Gone.{IsPlain}
use webhook_doorman.Redaction.Bytes.{IsAscii}
use webhook_doorman.Sanitize.{class_of, sanitize, sanitize_fields, strip_chars}
use webhook_doorman.Store.Schema.{script}
use webhook_doorman.Store.Start.{raised, apply_schema, crashed_start}
use webhook_doorman.Store.Start.Release.{
  file, empty_file, first_tables, second_tables, first_indexes, IsIndexed, IsReleased, first,
}
use webhook_doorman.Store.Start.Migrated.{IsUpToDate, crashed_starts, crashed_starts-IsUpToDate}
use webhook_doorman.Store.Start.Interrupted.{
  IsHonest, apply_schema-IsHonest, cut_first_start_raises,
}
use webhook_doorman.App.Event.{clean_content}
use webhook_doorman.App.Handler.{built}
use webhook_doorman.App.Unleaked.{IsUnleaked, built-IsUnleaked}
use webhook_doorman.App.Rejoined.{is_removed, clean_content_rejoins}
use webhook_doorman.Tests.Data.{setup, push_event}
use webhook_doorman.Tests.AppRuns.{ci, platform, request, parsed, event_or, same}

old_indexes : All (IsIndexed first_indexes) first_indexes
unfolding text_eq
old_indexes = (refl, (refl, (refl, (refl, (refl, tt)))))

old_file : IsReleased (file first_tables first_indexes 0)
old_file = first first_indexes 0 (omega arith) old_indexes refl

crashed_starts-IsUpToDate_example :
    IsUpToDate (apply_schema (crashed_starts (1 ∷ 0 ∷ []) (file first_tables first_indexes 0)))
crashed_starts-IsUpToDate_example =
    crashed_starts-IsUpToDate (1 ∷ 0 ∷ []) (file first_tables first_indexes 0) old_file

apply_schema-IsHonest_example :
    IsHonest (file second_tables [] 9) (apply_schema (file second_tables [] 9))
apply_schema-IsHonest_example = apply_schema-IsHonest (file second_tables [] 9)

three_statements : 3 ≤ length script
unfolding script
three_statements = omega arith

cut_first_start_raises_example :
    apply_schema (crashed_starts (2 ∷ []) (crashed_start 3 empty_file))
    ≡ (raised, crashed_start 3 empty_file)
cut_first_start_raises_example = cut_first_start_raises 3 (2 ∷ []) (omega arith) three_statements

abbrev secret : Text
secret = codes "hunter2secret"

configured : contains setup.secret_values secret ≡ true
unfolding text_eq
configured = refl

secret-IsPlain : IsPlain secret
secret-IsPlain = record { long = omega arith; bracketless = refl; other = λ e. cc }

secret-IsAscii : IsAscii secret
secret-IsAscii = omega arith

redacted_body :
    redact_bytes (codes "hunter2secret!") setup.secret_values ≡ some (codes "<redacted>!")
unfolding redact_bytes redactable sort_by encode encode_ignoring replace text_eq
redacted_body = refl

abbrev built_redacted : InboundEvent
built_redacted =
    event_or push_event
      (built ℕ ℕ platform setup ci (codes "<redacted>!") request.headers parsed (codes "push") 20)

builds_redacted :
    built ℕ ℕ platform setup ci (codes "<redacted>!") request.headers parsed (codes "push") 20
    ≡ some built_redacted
unfolding built encode sanitize strip_chars redact_text sort_by sanitize_fields walk_fields
    set_field
builds_redacted = refl

built-IsUnleaked_example :
    IsUnleaked ℕ ℕ platform setup ci
      (codes "<redacted>!")
      request.headers
      parsed
      (codes "push")
      secret
      built_redacted
built-IsUnleaked_example =
    built-IsUnleaked ℕ ℕ platform setup ci (codes "<redacted>!") request.headers parsed
      (codes "push") (codes "hunter2secret!") 20 built_redacted secret configured secret-IsPlain
      secret-IsAscii redacted_body builds_redacted

kept_characters : any is_removed (codes "hunter2" ++ codes "secret") ≡ false
unfolding class_of
kept_characters = refl

removed_character : is_removed 0x200B ≡ true
unfolding class_of
removed_character = refl

clean_content_rejoins_example :
    (clean_content same true
      ((codes "hunter2" ++ codes "secret") ∷ [])
      (codes "hunter2" ++ 0x200B ∷ codes "secret")
      Fields.end).summary
    ≡ codes "hunter2" ++ codes "secret"
clean_content_rejoins_example =
    clean_content_rejoins same (codes "hunter2") (codes "secret") 0x200B Fields.end (omega arith)
      (omega arith) (omega arith) kept_characters removed_character refl
