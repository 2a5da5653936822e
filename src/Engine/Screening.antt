-- ===== src/Engine/Screening.antt =====
-- Scoring an event's untrusted text and acting on the verdict (webhook_doorman/engine.py,
-- `_untrusted_text`, `_text_leaves` and `_screen`).
use webhook_doorman.Prelude.{ℕ, true, false, Option, none, some, List, [], ◌∷◌, ◌++◌}
use webhook_doorman.Prelude.Tests.{if◌then◌else◌, leb}
use webhook_doorman.Prelude.Text.{Text, codes, strip}
use webhook_doorman.Json.{Value, Items, Fields, get_field}
use webhook_doorman.Models.{EventStatus, DetectionResult}
use webhook_doorman.Sanitize.{sanitize}
use webhook_doorman.Context.{EventView, template_context}
use webhook_doorman.Store.Verdicts.{record_detection}
use webhook_doorman.Engine.Setup.{
  Scored, Detector, Action, Setup, DetectionVerdict, Metric, EngineState, increment, with_db,
  Response,
}

unfoldable mutual
  pub text_leaves : Value → List Text
  text_leaves (Value.str s) = s ∷ []
  text_leaves (Value.obj fields) = field_leaves fields
  text_leaves (Value.arr items) = item_leaves items
  text_leaves Value.null = []
  text_leaves (Value.bool true) = codes "True" ∷ []
  text_leaves (Value.bool false) = codes "False" ∷ []
  text_leaves (Value.num n) = n.text ∷ []

  pub item_leaves : Items → List Text
  item_leaves Items.nil = []
  item_leaves (Items.cons v items) = text_leaves v ++ item_leaves items

  pub field_leaves : Fields → List Text
  field_leaves Fields.end = []
  field_leaves (Fields.field k v fields) = text_leaves v ++ field_leaves fields

-- A field that is missing, or `None`, gives nothing.
abbrev leaves_of : Option Value → List Text
leaves_of none = []
leaves_of (some v) = text_leaves v

unfoldable pub parts_of : List Text → Fields → List Text
unfolding text_leaves
parts_of [] context = []
parts_of (name ∷ names) context = leaves_of (get_field name context) ++ parts_of names context

-- `"\n".join(parts)`.
unfoldable pub join_lines : List Text → Text
join_lines [] = []
join_lines (p ∷ []) = p
join_lines (p ∷ q ∷ ps) = p ++ (10 ∷ join_lines (q ∷ ps))

module _ (u : Setup) where
  unfoldable pub untrusted_text : EventView → Text
  unfolding join_lines parts_of strip
  untrusted_text e = strip (
      (sanitize u.nfkc (
        join_lines
          (parts_of e.untrusted_fields (template_context u.isoformat u.nfkc u.dumps false e)))).0)

  -- `cfg.threshold` decides between the two verdicts on an answer.
  abbrev pub verdict_of : Option DetectionResult → DetectionVerdict
  verdict_of none = DetectionVerdict.unavailable
  verdict_of (some r) =
      if leb u.threshold r.score then DetectionVerdict.flagged else DetectionVerdict.clean

  abbrev pub action_of : DetectionVerdict → Action
  action_of DetectionVerdict.unavailable = u.on_error
  action_of DetectionVerdict.flagged = u.on_detect
  action_of DetectionVerdict.clean = Action.annotate

  abbrev pub status_of : Action → EventStatus
  status_of Action.annotate = EventStatus.received
  status_of Action.quarantine = EventStatus.quarantined
  status_of Action.drop = EventStatus.dropped

  -- What `_detector_last_error` becomes: an answer clears it, an exception sets it, and `None`
  -- leaves it.
  abbrev pub last_error_after : Scored → Option Text → Option Text
  last_error_after (Scored.answered r) before = none
  last_error_after Scored.no_answer before = before
  last_error_after (Scored.raised cls detail) before = some cls

  abbrev pub result_of : Scored → Option DetectionResult
  result_of (Scored.answered r) = some r
  result_of Scored.no_answer = none
  result_of (Scored.raised cls detail) = none

  abbrev pub first_rule : Option DetectionResult → Option Text
  first_rule none = none
  first_rule (some r) = elim (r.rules) [ [] ↦ none | rule ∷ rules ↦ some rule ]

  abbrev pub quarantine_time : EventStatus → ℕ → Option ℕ
  quarantine_time EventStatus.quarantined now = some now
  quarantine_time _ now = none

  -- The body for a withheld event, and `none` for one to dispatch; a quarantine is counted.
  unfoldable pub conclude :
      Text → ℕ → EventStatus → Option Text → EngineState → Option Response × EngineState
  conclude source event_id EventStatus.received rule s = (none, s)
  conclude source event_id EventStatus.quarantined rule s = (
    some (Response.withheld EventStatus.quarantined event_id),
    increment (Metric.events_quarantined source rule) s,
  )
  conclude source event_id status rule s = (some (Response.withheld status event_id), s)

  -- Everything after `detector.score`.
  unfoldable pub act_on : Text → Scored → Text → ℕ → ℕ → EngineState → Option Response × EngineState
  unfolding conclude
  act_on backend scored source event_id now s =
      let result = result_of scored in
      let verdict = verdict_of result in
      let status = status_of (action_of verdict) in
      let counted = increment (Metric.detection source verdict) (
        increment (Metric.detection_latency backend)
          (record s { detector_last_error = last_error_after scored s.detector_last_error })) in
      conclude source event_id status (first_rule result) (
        with_db (record_detection event_id result status (quarantine_time status now) counted.db)
          counted)

  abbrev pub score_text :
      Option Detector → Text → Text → ℕ → ℕ → EngineState → Option Response × EngineState
  score_text none text source event_id now s = (none, s)
  score_text (some detector) [] source event_id now s = (none, s)
  score_text (some detector) (c ∷ text) source event_id now s =
      act_on detector.name (detector.score (c ∷ text)) source event_id now s

  -- No detector, or no untrusted text: nothing is scored and nothing is counted.
  unfoldable pub screen : EventView → ℕ → ℕ → EngineState → Option Response × EngineState
  unfolding act_on
  screen e event_id now s = score_text u.detector (untrusted_text e) e.source event_id now s
