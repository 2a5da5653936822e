-- ===== src/Context.antt =====
-- The template namespace of an event (webhook_doorman/models.py, `_template_context`), for both
-- shapes of an event.
pub mod Fenced
use webhook_doorman.Prelude.{
  ℕ, zero, suc, ◌+◌, ◌/◌, ◌-◌, ◌*◌, Bool, true, false, not, Option, none, some, List, [], ◌∷◌, ◌++◌,
}
use webhook_doorman.Prelude.Tests.{if◌then◌else◌, ltb}
use webhook_doorman.Prelude.Text.{Text, codes, contains}
use webhook_doorman.Json.{Value, Fields, Numeral, get_field, set_field}
use webhook_doorman.Models.{InboundEvent, StoredEvent}
use webhook_doorman.Fencing.{fence_context}

-- The decimal digits in front of a text, on fuel that the number itself bounds.
decimal_from : ℕ → ℕ → Text → Text
decimal_from zero n acc = acc
decimal_from (suc fuel) n acc =
    let digit = b'0' + (n - 10 * (n / 10)) in
    let rest = decimal_from fuel (n / 10) (digit ∷ acc) in if ltb n 10 then digit ∷ acc else rest

-- `str(n)`.
unfoldable pub decimal : ℕ → Text
unfolding decimal_from
decimal n = decimal_from (suc n) n []

-- What `_template_context` reads of an event; `event_id` is `none` for an inbound one.
pub record EventView : Type 0 where
  pub source : Text
  pub delivery_id : Text
  pub event_type : Text
  pub summary : Text
  pub payload : Value
  pub received_at : ℕ
  pub context : Fields
  pub untrusted_fields : List Text
  pub event_id : Option ℕ

abbrev pub inbound_view : InboundEvent → EventView
inbound_view e = record {
  source = e.source;
  delivery_id = e.delivery_id;
  event_type = e.event_type;
  summary = e.summary;
  payload = e.payload;
  received_at = e.received_at;
  context = e.context;
  untrusted_fields = e.untrusted_fields;
  event_id = none;
}

abbrev pub stored_view : StoredEvent → EventView
stored_view e = record {
  source = e.source;
  delivery_id = e.delivery_id;
  event_type = e.event_type;
  summary = e.summary;
  payload = e.payload;
  received_at = e.received_at;
  context = e.context;
  untrusted_fields = e.untrusted_fields;
  event_id = some e.id;
}

-- `{**base, **extra}`.
unfoldable pub merge : Fields → Fields → Fields
merge base Fields.end = base
merge base (Fields.field k v extra) = merge (set_field k v base) extra

unfoldable pub with_event_id : Option ℕ → Fields → Fields
unfolding decimal
with_event_id none context = context
with_event_id (some n) context =
    set_field (codes "event_id") (Value.num (record { text = decimal n; nonzero = ltb 0 n }))
      context

abbrev pub add_always : Text → List Text → List Text
add_always name fields = if contains fields name then fields else fields ++ name ∷ []

-- The names that are fenced: those of the parser, then `summary` and `payload`.
unfoldable pub fenced_fields : List Text → List Text
fenced_fields fields = add_always (codes "payload") (add_always (codes "summary") fields)

-- `datetime.isoformat` is an argument.
module _ (isoformat : ℕ → Text) where
  unfoldable pub plain_context : EventView → Fields
  unfolding merge with_event_id
  plain_context e = with_event_id e.event_id (
      merge
        (Fields.field (codes "source") (Value.str e.source) (
          Fields.field (codes "delivery_id") (Value.str e.delivery_id) (
            Fields.field (codes "event_type") (Value.str e.event_type) (
              Fields.field (codes "summary") (Value.str e.summary) (
                Fields.field (codes "payload") e.payload (
                  Fields.field (codes "received_at") (Value.str (isoformat e.received_at))
                    Fields.end))))))
        e.context)

  module _ (nfkc : Text → Text) (dumps : Value → Text) where
    unfoldable pub template_context : Bool → EventView → Fields
    unfolding plain_context fenced_fields
    template_context fence e =
        if fence
        then fence_context nfkc dumps e.source (fenced_fields e.untrusted_fields) (plain_context e)
        else plain_context e
