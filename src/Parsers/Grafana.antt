-- ===== src/Parsers/Grafana.antt =====
-- The Grafana parser (webhook_doorman/parsers.py, `parse_grafana`). `str.upper` is Unicode's table
-- and an argument.
use webhook_doorman.Prelude.{ℕ, suc, Bool, true, false, Option, none, some, List, [], ◌∷◌, ◌++◌}
use webhook_doorman.Prelude.Tests.{if◌then◌else◌}
use webhook_doorman.Prelude.Text.{Text, codes, text_eq}
use webhook_doorman.Json.{Value, Items, Fields, get_or_null, is_truthy, or_value, equals_text}
use webhook_doorman.Parsers.Event.{ParsedEvent, unactionable, dig_keys, number, format}

-- `v if isinstance(v, list) else []`.
abbrev pub list_or_empty : Value → Items
list_or_empty (Value.arr items) = items
list_or_empty v = Items.nil

abbrev pub is_firing : Value → Bool
is_firing (Value.obj alert) = equals_text (get_or_null (codes "status") alert) (codes "firing")
is_firing v = false

unfoldable pub count_items : Items → ℕ
count_items Items.nil = 0
count_items (Items.cons v items) = suc (count_items items)

unfoldable pub count_firing : Items → ℕ
count_firing Items.nil = 0
count_firing (Items.cons alert alerts) =
    let rest = count_firing alerts in if is_firing alert then suc rest else rest

-- The alert name of the first alert, where there is one.
abbrev pub first_alertname : Items → Value
first_alertname Items.nil = Value.null
first_alertname (Items.cons alert alerts) = dig_keys alert (codes "labels" ∷ codes "alertname" ∷ [])

module _ (container_text : Value → Text) (upper : Text → Text) where
  -- The default of the look-up is computed first, so a status that is no text raises.
  abbrev pub status_marker : Value → Option Text
  status_marker (Value.str status) = some (
      if text_eq status (codes "firing")
      then codes "[FIRING]"
      else if text_eq status (codes "resolved")
      then codes "[RESOLVED]"
      else b'[' ∷ upper status ++ codes "]")
  status_marker v = none

  abbrev pub grafana_summary : Text → Value → Value → Text
  grafana_summary marker title message =
      let summary = marker ++ b' ' ∷ format container_text title in
      if is_truthy message
      then summary ++ (codes " — " ++ format container_text message)
      else summary

  unfoldable pub grafana_event : Fields → Value → Items → Text → ParsedEvent
  unfolding dig_keys count_items count_firing format
  grafana_event payload status alerts marker =
      let title : Value = or_value (get_or_null (codes "title") payload) (
        or_value (dig_keys (Value.obj payload) (codes "commonLabels" ∷ codes "alertname" ∷ []))
          (or_value (first_alertname alerts) (Value.str (codes "Grafana alert")))) in
      let message : Value = or_value (get_or_null (codes "message") payload) (
        or_value (dig_keys (Value.obj payload) (codes "commonAnnotations" ∷ codes "summary" ∷ []))
          (Value.str [])) in
      record {
        event_type = Value.str (codes "grafana." ++ format container_text status);
        summary = grafana_summary marker title message;
        actionable = true;
        context = Fields.field (codes "status") status (
            Fields.field (codes "title") title (
              Fields.field (codes "message") message (
                Fields.field (codes "alert_count") (number (count_items alerts)) (
                  Fields.field (codes "firing_count") (number (count_firing alerts)) (
                    Fields.field (codes "external_url")
                      (or_value (get_or_null (codes "externalURL") payload) (Value.str []))
                      Fields.end)))));
        untrusted_fields = codes "summary" ∷ codes "title" ∷ codes "message" ∷ [];
      }

  abbrev pub with_marker : Fields → Value → Items → Option Text → Option ParsedEvent
  with_marker payload status alerts none = none
  with_marker payload status alerts (some marker) =
      some (grafana_event payload status alerts marker)

  unfoldable pub parse_grafana : Value → List (Text × Text) → Option ParsedEvent
  unfolding grafana_event
  parse_grafana (Value.obj payload) headers =
      let status : Value =
        or_value (get_or_null (codes "status") payload) (Value.str (codes "unknown")) in
      with_marker payload status (list_or_empty (get_or_null (codes "alerts") payload))
        (status_marker status)
  parse_grafana v headers =
      some (unactionable (codes "grafana") (codes "unparseable Grafana payload"))
