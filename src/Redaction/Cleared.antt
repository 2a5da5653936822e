-- ===== src/Redaction/Cleared.antt =====
-- That a secret is gone from what is stored (webhook_doorman/redaction.py): the decoded payload, the
-- headers and the raw body.
use webhook_doorman.Prelude.{◌≡◌, inl, inr, true, List, [], ◌∷◌}
use webhook_doorman.Prelude.Tests.{Bool-cases}
use webhook_doorman.Prelude.Lists.{All}
use webhook_doorman.Prelude.Text.{Text, contains, text_eq}
use webhook_doorman.Json.{Value, Items, Fields, set_field}
use webhook_doorman.Redaction.{
  redact_all, redactable, walk, walk_items, walk_fields, redact_json, redact_text,
}
use webhook_doorman.Redaction.Gone.{
  IsFree, IsPlain, redact_all-IsFree, redactable-contains, IsFree-marker, empty_first,
}
use webhook_doorman.Redaction.Headers.{redact_headers, redact_each, is_credential}

-- No text of a decoded structure has the secret in it, and no key.
unfoldable mutual
  pub IsFreeValue : Text → Value → Type 0
  IsFreeValue v (Value.str s) = IsFree v s
  IsFreeValue v (Value.obj fields) = IsFreeFields v fields
  IsFreeValue v (Value.arr items) = IsFreeItems v items
  IsFreeValue v Value.null = Unit
  IsFreeValue v (Value.bool b) = Unit
  IsFreeValue v (Value.num n) = Unit

  pub IsFreeItems : Text → Items → Type 0
  IsFreeItems v Items.nil = Unit
  IsFreeItems v (Items.cons x items) = IsFreeValue v x × IsFreeItems v items

  pub IsFreeFields : Text → Fields → Type 0
  IsFreeFields v Fields.end = Unit
  IsFreeFields v (Fields.field k x fields) = IsFree v k × IsFreeValue v x × IsFreeFields v fields

IsFreeFields-set_field :
    (v k : Text) (x : Value) (fields : Fields)
    → IsFree v k
    → IsFreeValue v x
    → IsFreeFields v fields
    → IsFreeFields v (set_field k x fields)
unfolding set_field IsFreeValue
IsFreeFields-set_field v k x Fields.end hk hx h = (hk, hx, tt)
IsFreeFields-set_field v k x (Fields.field j y fields) hk hx h = elim (Bool-cases (text_eq j k)) [
  | inl same ↦ rw same (h.0, hx, h.2)
  | inr other ↦ rw other (h.0, h.1, IsFreeFields-set_field v k x fields hk hx h.2)
]

module _ (vs : List Text) (v : Text) (h : contains vs v ≡ true) (p : IsPlain v) where
  mutual
    unfolding walk IsFreeValue

    walk-IsFree : (x : Value) → IsFreeValue v (walk vs x)
    walk-IsFree (Value.str s) = redact_all-IsFree vs v s h p
    walk-IsFree (Value.obj fields) = walk_fields-IsFree Fields.end fields tt
    walk-IsFree (Value.arr items) = walk_items-IsFree items
    walk-IsFree Value.null = tt
    walk-IsFree (Value.bool b) = tt
    walk-IsFree (Value.num n) = tt

    walk_items-IsFree : (items : Items) → IsFreeItems v (walk_items vs items)
    walk_items-IsFree Items.nil = tt
    walk_items-IsFree (Items.cons x items) = (walk-IsFree x, walk_items-IsFree items)

    walk_fields-IsFree :
        (acc fields : Fields) → IsFreeFields v acc → IsFreeFields v (walk_fields vs acc fields)
    walk_fields-IsFree acc Fields.end a = a
    walk_fields-IsFree acc (Fields.field k x fields) a = walk_fields-IsFree _ fields (
        IsFreeFields-set_field v (redact_all vs k) (walk vs x) acc (redact_all-IsFree vs v k h p)
          (walk-IsFree x) a)

module _ (secrets : List Text) (v : Text) (h : contains secrets v ≡ true) (p : IsPlain v) where
  pub redact_text-IsFree : (text : Text) → IsFree v (redact_text text secrets)
  unfolding redact_text
  redact_text-IsFree text =
      redact_all-IsFree (redactable secrets) v text (redactable-contains secrets v h p.long) p

  pub redact_json-IsFree : (x : Value) → IsFreeValue v (redact_json x secrets)
  unfolding redact_json
  redact_json-IsFree x =
      walk-IsFree (redactable secrets) v (redactable-contains secrets v h p.long) p x

  pub walk_fields_IsFree :
      (fields : Fields) → IsFreeFields v (walk_fields (redactable secrets) Fields.end fields)
  unfolding IsFreeValue
  walk_fields_IsFree fields =
      walk_fields-IsFree (redactable secrets) v (redactable-contains secrets v h p.long) p
        Fields.end fields tt

  module _ (lower : Text → Text) (extra : List Text) where
    redact_each-IsFree :
        (headers : List (Text × Text))
        → All
            (λ (j : Text × Text). IsFree v (j.1))
            (redact_each lower extra (redactable secrets) headers)
    unfolding redact_each
    redact_each-IsFree [] = tt
    redact_each-IsFree ((k, x) ∷ headers) =
        let rest = redact_each-IsFree headers in
        elim (Bool-cases (is_credential lower extra k)) [
          | inl blank ↦ rw blank (IsFree-marker v [] p (empty_first v p), rest)
          | inr kept ↦ rw kept (
            redact_all-IsFree (redactable secrets) v x (redactable-contains secrets v h p.long) p,
            rest,
          )
        ]

    pub redact_headers-IsFree :
        (headers : List (Text × Text))
        → All (λ (j : Text × Text). IsFree v (j.1)) (redact_headers lower headers extra secrets)
    unfolding redact_headers
    redact_headers-IsFree headers = redact_each-IsFree headers
