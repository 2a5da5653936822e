-- ===== src/Parsers/Vikunja.antt =====
-- The Vikunja parser (webhook_doorman/parsers.py, `parse_vikunja`).
use webhook_doorman.Prelude.{Bool, true, false, ◌&&◌, Option, some, List, [], ◌∷◌, ◌++◌}
use webhook_doorman.Prelude.Tests.{if◌then◌else◌}
use webhook_doorman.Prelude.Text.{Text, codes}
use webhook_doorman.Json.{Value, Fields, get_or_null, is_truthy, or_value, equals_text}
use webhook_doorman.Parsers.Event.{ParsedEvent, unactionable, dig_keys, format}

-- `v if isinstance(v, dict) else {}`.
abbrev pub dict_or_empty : Value → Fields
dict_or_empty (Value.obj fields) = fields
dict_or_empty v = Fields.end

-- `v is True`.
abbrev pub is_true : Value → Bool
is_true (Value.bool b) = b
is_true v = false

module _ (container_text : Value → Text) where
  -- The event's name and its summary: a completed task is renamed.
  unfoldable pub vikunja_summary : Value → Fields → Fields → Value → Value × Text
  unfolding dig_keys format
  vikunja_summary event_name fields task title =
      if equals_text event_name (codes "task.updated") && is_true (get_or_null (codes "done") task)
      then (Value.str (codes "task.done"), codes "Task completed: " ++ format container_text title)
      else if equals_text event_name (codes "task.comment.created")
      then (
        event_name,
        codes "Comment by "
            ++ (format container_text (
                  or_value
                    (dig_keys (Value.obj fields)
                      (codes "comment" ∷ codes "author" ∷ codes "username" ∷ []))
                    (Value.str (codes "someone")))
                ++ (codes " on: " ++ format container_text title)),
      )
      else (
        event_name,
        format container_text event_name ++ (codes ": " ++ format container_text title),
      )

  unfoldable pub vikunja_event : Value → Fields → Fields → ParsedEvent
  unfolding vikunja_summary
  vikunja_event event_name fields task =
      let title : Value =
        or_value (get_or_null (codes "title") task) (Value.str (codes "(untitled)")) in
      let (event_type, summary) = vikunja_summary event_name fields task title in
      record {
        event_type = event_type;
        summary = summary;
        actionable = true;
        context = Fields.field (codes "title") title (
            Fields.field (codes "task_id") (get_or_null (codes "id") task) (
              Fields.field (codes "done") (Value.bool (is_truthy (get_or_null (codes "done") task)))
                Fields.end));
        untrusted_fields = codes "summary" ∷ codes "title" ∷ [];
      }

  unfoldable pub parse_vikunja : Value → List (Text × Text) → Option ParsedEvent
  unfolding vikunja_event
  parse_vikunja (Value.obj payload) headers =
      let fields = dict_or_empty (get_or_null (codes "data") payload) in
      some (
        vikunja_event
          (or_value (get_or_null (codes "event_name") payload) (Value.str (codes "vikunja"))) fields
          (dict_or_empty (get_or_null (codes "task") fields)))
  parse_vikunja v headers =
      some (unactionable (codes "vikunja") (codes "unparseable Vikunja payload"))
