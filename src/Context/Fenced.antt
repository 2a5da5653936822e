-- ===== src/Context/Fenced.antt =====
-- Which names of the template namespace a fence is put around (webhook_doorman/fencing.py,
-- `fence_context`, and models.py, `template_context`).
use webhook_doorman.Prelude.{
  ℕ, ◌≡◌, refl, sym, ap, subst, ◌++◌, ◌∙◌, inl, inr, Bool, true, false, ◌||◌, Option, some, List,
  [], ◌∷◌, arith,
}
use webhook_doorman.Prelude.Tests.{Bool-cases, Option-cases, ||_parts}
use webhook_doorman.Prelude.Lists.{any-append}
use webhook_doorman.Prelude.Text.{
  Text, codes, text_eq, text_eq_iff, text_eq_sound, text_eq_comm, contains,
}
use webhook_doorman.Json.{Value, Fields, get_field, get_field-set_field}
use webhook_doorman.Fencing.{
  has_open, strip_fence_tags, attribute, fence_text, as_text, fence_field, fence_context,
}
use webhook_doorman.Sanitize.{sanitize}
use webhook_doorman.Fencing.Strip.{has_open-strip_fence_tags}
use webhook_doorman.Context.{EventView, plain_context, template_context, fenced_fields, add_always}

module _ (nfkc : Text → Text) (dumps : Value → Text) (source : Text) where
  -- A text that a value is turned into: as it is, or as JSON; or such a text in a fence already, where
  -- a field is named more than once.
  pub data IsTextOf (k : Text) (v : Value) : Text → Type 0 where
    bare : IsTextOf k v (as_text nfkc dumps v)
    again : (t : Text) → IsTextOf k v t → IsTextOf k v (fence_text nfkc t source k)

  -- What stands inside a fence.
  abbrev pub inner : Text → Text
  inner t = strip_fence_tags ((sanitize nfkc t).0)

  -- What is read is a text of this value, cleaned of all openings of a fence, between the tags that
  -- name the source and the field.
  abbrev pub IsFenced : Text → Value → Option Value → Type 0
  IsFenced k v o =
      (t : Text) × IsTextOf k v t
      × (o
          ≡ some (
              Value.str (
                codes "<untrusted source="
                ++ (attribute source
                    ++ (codes " field="
                        ++ (attribute k
                            ++ (codes ">\n" ++ (inner t ++ codes "\n</untrusted>"))))))))
      × (has_open (inner t) ≡ false)

  append_assoc : (a b c : Text) → (a ++ b) ++ c ≡ a ++ (b ++ c)
  append_assoc [] b c = refl
  append_assoc (x ∷ a) b c = ap (λ (t : Text). x ∷ t) (append_assoc a b c)

  gather :
      (a b c d e f : Text) → (a ++ (b ++ (c ++ (d ++ e)))) ++ f ≡ a ++ (b ++ (c ++ (d ++ (e ++ f))))
  gather a b c d e f =
      append_assoc a (b ++ (c ++ (d ++ e))) f
      ∙ ap (λ (x : Text). a ++ x)
          (append_assoc b (c ++ (d ++ e)) f
            ∙ ap (λ (x : Text). b ++ x)
                (append_assoc c (d ++ e) f ∙ ap (λ (x : Text). c ++ x) (append_assoc d e f)))

  fence_text_lem :
      (t k : Text)
      → fence_text nfkc t source k
        ≡ codes "<untrusted source="
          ++ (attribute source
              ++ (codes " field="
                  ++ (attribute k ++ (codes ">\n" ++ (inner t ++ codes "\n</untrusted>")))))
  unfolding fence_text
  fence_text_lem t k =
      gather (codes "<untrusted source=") (attribute source) (codes " field=") (attribute k)
        (codes ">\n") (inner t ++ codes "\n</untrusted>")

  -- A field whose value is the fenced text.
  abbrev Fences : Text → Value → Option Value → Type 0
  Fences k v o = (t : Text) × IsTextOf k v t × (o ≡ some (Value.str (fence_text nfkc t source k)))

  Fences-IsFenced : (k : Text) (v : Value) (o : Option Value) → Fences k v o → IsFenced k v o
  Fences-IsFenced k v o (t, is_text, e) = (
    t,
    is_text,
    e ∙ ap (λ (x : Text). some (Value.str x)) (fence_text_lem t k),
    has_open-strip_fence_tags ((sanitize nfkc t).0),
  )

  fence_field-other :
      (f k : Text) (c : Fields)
      → text_eq f k ≡ false
      → get_field k (fence_field nfkc dumps source f c) ≡ get_field k c
  unfolding fence_field
  fence_field-other f k c h = elim (Option-cases (get_field f c)) [
    | inl missing ↦ rw (missing, fence_field) refl
    | inr (v, found) ↦
        rw (found, fence_field)
          (get_field-set_field f k (Value.str (fence_text nfkc (as_text nfkc dumps v) source f)) c
            ∙ rw h refl)
  ]

  fenced_value :
      (k : Text) (v : Value) (c : Fields)
      → get_field k c ≡ some v
      → get_field k (fence_field nfkc dumps source k c)
        ≡ some (Value.str (fence_text nfkc (as_text nfkc dumps v) source k))
  unfolding fence_field
  fenced_value k v c found =
      rw (found, fence_field)
        (get_field-set_field k k (Value.str (fence_text nfkc (as_text nfkc dumps v) source k)) c
          ∙ rw ((text_eq_iff k k).1 refl) refl)

  fence_field-hit :
      (k : Text) (v : Value) (c : Fields)
      → get_field k c ≡ some v
      → Fences k v (get_field k (fence_field nfkc dumps source k c))
  fence_field-hit k v c found = (as_text nfkc dumps v, bare, fenced_value k v c found)

  -- Another pass fences again what it names and leaves the rest.
  fence_field-again :
      (k t : Text) (v : Value) (c : Fields)
      → IsTextOf k v (fence_text nfkc t source k)
      → get_field k c ≡ some (Value.str (fence_text nfkc t source k))
      → Fences k v (get_field k (fence_field nfkc dumps source k c))
  unfolding as_text
  fence_field-again k t v c is_text found = (
    fence_text nfkc t source k,
    is_text,
    fenced_value k (Value.str (fence_text nfkc t source k)) c found,
  )

  fence_field-Fences :
      (f k : Text) (v : Value) (c : Fields)
      → Fences k v (get_field k c)
      → Fences k v (get_field k (fence_field nfkc dumps source f c))
  fence_field-Fences f k v c (t, is_text, h) = elim (Bool-cases (text_eq f k)) [
    | inl hit ↦
        subst (λ (g : Text). Fences k v (get_field k (fence_field nfkc dumps source g c)))
          (sym (text_eq_sound f k hit)) (fence_field-again k t v c (again t is_text) h)
    | inr other ↦ (t, is_text, fence_field-other f k c other ∙ h)
  ]

  fence_context-Fences :
      (fields : List Text) (k : Text) (v : Value) (c : Fields)
      → Fences k v (get_field k c)
      → Fences k v (get_field k (fence_context nfkc dumps source fields c))
  unfolding fence_context
  fence_context-Fences [] k v c h = h
  fence_context-Fences (f ∷ fields) k v c h =
      fence_context-Fences fields k v (fence_field nfkc dumps source f c)
        (fence_field-Fences f k v c h)

  pub fence_context-named :
      (fields : List Text) (k : Text) (v : Value) (c : Fields)
      → contains fields k ≡ true
      → get_field k c ≡ some v
      → Fences k v (get_field k (fence_context nfkc dumps source fields c))
  unfolding fence_context
  fence_context-named [] k v c h found = absurd cc
  fence_context-named (f ∷ fields) k v c h found = elim (Bool-cases (text_eq k f)) [
    | inl hit ↦ fence_context-Fences fields k v (fence_field nfkc dumps source f c) (
        subst (λ (g : Text). Fences k v (get_field k (fence_field nfkc dumps source g c)))
          (text_eq_sound k f hit) (fence_field-hit k v c found))
    | inr other ↦
        fence_context-named fields k v (fence_field nfkc dumps source f c) (rw other at h)
          (fence_field-other f k c (text_eq_comm f k ∙ other) ∙ found)
  ]

  pub fence_context-other :
      (fields : List Text) (k : Text) (c : Fields)
      → contains fields k ≡ false
      → get_field k (fence_context nfkc dumps source fields c) ≡ get_field k c
  unfolding fence_context
  fence_context-other [] k c h = refl
  fence_context-other (f ∷ fields) k c h =
      let parts : (text_eq k f ≡ false) × (contains fields k ≡ false) =
        ||_parts (text_eq k f) (contains fields k) h in
      fence_context-other fields k (fence_field nfkc dumps source f c) parts.1
      ∙ fence_field-other f k c (text_eq_comm f k ∙ parts.0)

contains-add_always :
    (name k : Text) (fields : List Text)
    → contains (add_always name fields) k ≡ (contains fields k || text_eq k name)
contains-add_always name k fields = elim (Bool-cases (contains fields name)) [
  | inl there ↦ elim (Bool-cases (text_eq k name)) [
    | inl same ↦ rw there (
        ground (
          arith,
          subst (λ (x : Text). contains fields x ≡ true) (sym (text_eq_sound k name same)) there,
        ))
    | inr other ↦ rw there (ground arith)
  ]
  | inr new ↦ rw new (any-append (text_eq k) fields (name ∷ []) ∙ ground arith)
]

-- The names that the source's untrusted fields and the two fixed names make.
abbrev pub is_fenced_name : List Text → Text → Bool
is_fenced_name fields k =
    contains fields k || (text_eq k (codes "summary") || text_eq k (codes "payload"))

contains-fenced_fields :
    (fields : List Text) (k : Text) → contains (fenced_fields fields) k ≡ is_fenced_name fields k
unfolding fenced_fields
contains-fenced_fields fields k =
    contains-add_always (codes "payload") k (add_always (codes "summary") fields)
    ∙ rw (contains-add_always (codes "summary") k fields) (ground arith)

-- On a fenced context, what each of the event's untrusted fields, the summary and the payload reads as
-- is the text of its value, or the JSON, sanitised and without any opening of a fence, between the tags
-- `<untrusted source="…" field="…">` of the event's source and the field and `</untrusted>`; a field
-- that is named twice is put into a fence twice. Every other name has the value it has without a fence.
pub template_context-IsFenced :
    (isoformat : ℕ → Text) (nfkc : Text → Text) (dumps : Value → Text) (e : EventView) (k : Text)
    → (is_fenced_name e.untrusted_fields k ≡ true
        → (v : Value) → get_field k (plain_context isoformat e) ≡ some v
        → IsFenced nfkc dumps e.source k v
            (get_field k (template_context isoformat nfkc dumps true e)))
      × (is_fenced_name e.untrusted_fields k ≡ false
          → get_field k (template_context isoformat nfkc dumps true e)
            ≡ get_field k (template_context isoformat nfkc dumps false e))
unfolding template_context
template_context-IsFenced isoformat nfkc dumps e k = (
  (λ named v found. Fences-IsFenced nfkc dumps e.source k v _ (
      fence_context-named nfkc dumps e.source (fenced_fields e.untrusted_fields) k v
        (plain_context isoformat e) (contains-fenced_fields e.untrusted_fields k ∙ named) found)),
  (λ other.
      fence_context-other nfkc dumps e.source (fenced_fields e.untrusted_fields) k
        (plain_context isoformat e) (contains-fenced_fields e.untrusted_fields k ∙ other)),
)
