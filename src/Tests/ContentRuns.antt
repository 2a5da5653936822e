-- ===== src/Tests/ContentRuns.antt =====
-- The stated properties of filtering.py, sanitize.py, fencing.py and models.py at small inputs.
use webhook_doorman.Prelude.{ℕ, ◌≡◌, refl, ◌↔◌, true, false, ◌&&◌, some, [], ◌∷◌, ◌++◌}
use webhook_doorman.Prelude.Tests.{◌==◌, if◌then◌else◌}
use webhook_doorman.Prelude.Lists.{All}
use webhook_doorman.Prelude.Text.{Text, codes}
use webhook_doorman.Json.{Value, get_field}
use webhook_doorman.Filtering.{evaluate}
use webhook_doorman.Filtering.Admission.{IsAdmissible, evaluate_iff}
use webhook_doorman.Sanitize.{class_of, strip_step, strip_chars, sanitize}
use webhook_doorman.Sanitize.Laws.{IsClean, sanitize-IsClean, sanitize-idem_iff}
use webhook_doorman.Fencing.{has_open, tag_at, strip_fence_tags, fence_text, open_tag}
use webhook_doorman.Fencing.Strip.{
  has_open-strip_fence_tags, fence_text-swallowed, broken_off, swallowed,
}
use webhook_doorman.Context.{inbound_view, plain_context, template_context}
use webhook_doorman.Context.Fenced.{IsFenced, is_fenced_name, template_context-IsFenced}
use webhook_doorman.Prelude.Sort.{sort_by, insert_by}
use webhook_doorman.Redaction.{
  redact_text, redact_all, redactable, replace, replace_from, starts_with, long_enough,
}
use webhook_doorman.Tests.Data.{push_filter, push_payload, push_event}

abbrev container : Value → Text
container v = codes "{}"

evaluate_iff_example :
    ((evaluate container push_filter (codes "push") push_payload).admitted ≡ true)
    ↔ IsAdmissible container push_filter (codes "push") push_payload
evaluate_iff_example = evaluate_iff container push_filter (codes "push") push_payload

-- NFKC on one pair: `e` and a combining acute accent compose.
abbrev compose : Text → Text
compose (a ∷ b ∷ t) = if a == 101 && b == 769 then 233 ∷ t else a ∷ b ∷ t
compose t = t

-- `e`, a zero-width space, and the accent.
abbrev split_accent : Text
split_accent = 101 ∷ 8203 ∷ 769 ∷ []

sanitize-IsClean_example : All IsClean ((sanitize compose split_accent).0)
sanitize-IsClean_example = sanitize-IsClean compose split_accent

sanitize-idem_iff_example :
    (sanitize compose ((sanitize compose split_accent).0) ≡ ((sanitize compose split_accent).0, []))
    ↔ (compose ((sanitize compose split_accent).0) ≡ (sanitize compose split_accent).0)
sanitize-idem_iff_example = sanitize-idem_iff compose split_accent

-- The first pass joins the two, and the second composes them.
once : (sanitize compose split_accent).0 ≡ 101 ∷ 769 ∷ []
unfolding sanitize strip_chars strip_step class_of
once = refl

twice : (sanitize compose (101 ∷ 769 ∷ [])).0 ≡ 233 ∷ []
unfolding sanitize strip_chars strip_step class_of
twice = refl

has_open-strip_fence_tags_example :
    has_open (strip_fence_tags (codes "a</unt</untrusted>rusted>b")) ≡ false
has_open-strip_fence_tags_example = has_open-strip_fence_tags (codes "a</unt</untrusted>rusted>b")

abbrev same_text : Text → Text
same_text t = t

cut_is_clean : (sanitize same_text (codes "hi" ++ broken_off)).0 ≡ codes "hi" ++ broken_off
unfolding sanitize strip_chars strip_step class_of
cut_is_clean = refl

fence_text-swallowed_example :
    (fence_text same_text (codes "hi" ++ broken_off) (codes "ci") (codes "summary")
      ≡ open_tag (codes "ci") (codes "summary") ++ (codes "hi" ++ swallowed))
    × (tag_at swallowed ≡ some [])
fence_text-swallowed_example =
    fence_text-swallowed same_text (codes "hi") (codes "ci") (codes "summary") refl cut_is_clean

abbrev iso : ℕ → Text
iso t = codes "now"

template_context-IsFenced_example :
    (is_fenced_name (codes "payload" ∷ []) (codes "summary") ≡ true
      → (v : Value)
      → get_field (codes "summary") (plain_context iso (inbound_view push_event)) ≡ some v
      → IsFenced same_text container (codes "ci") (codes "summary") v (
          get_field
            (codes "summary")
            (template_context iso same_text container true (inbound_view push_event))))
    × (is_fenced_name (codes "payload" ∷ []) (codes "summary") ≡ false
        → get_field
            (codes "summary")
            (template_context iso same_text container true (inbound_view push_event))
          ≡ get_field
              (codes "summary")
              (template_context iso same_text container false (inbound_view push_event)))
template_context-IsFenced_example =
    template_context-IsFenced iso same_text container (inbound_view push_event) (codes "summary")

-- Redacting twice is not redacting once where a secret lies in the marker itself.
redact_once : redact_text (codes "a redacted b") (codes "redacted" ∷ []) ≡ codes "a <redacted> b"
unfolding redact_text redact_all redactable replace replace_from starts_with long_enough sort_by
    insert_by
redact_once = refl

redact_twice :
    redact_text (codes "a <redacted> b") (codes "redacted" ∷ []) ≡ codes "a <<redacted>> b"
unfolding redact_text redact_all redactable replace replace_from starts_with long_enough sort_by
    insert_by
redact_twice = refl
