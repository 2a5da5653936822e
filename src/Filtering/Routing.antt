-- ===== src/Filtering/Routing.antt =====
-- Where an event goes (webhook_doorman/filtering.py, `route`).
use webhook_doorman.Prelude.{
  ◌≡◌, refl, ◌≢◌, inl, inr, Bool, false, not, Option, none, some, List, [], ◌∷◌, map,
}
use webhook_doorman.Prelude.Tests.{Bool-cases}
use webhook_doorman.Prelude.Lists.{filter}
use webhook_doorman.Prelude.Text.{Text}
use webhook_doorman.Json.{Value}
use webhook_doorman.Models.{Reason, FilterVerdict}
use webhook_doorman.Filtering.{
  EventFilter, SinkRoute, evaluate, route_verdict, route, check_deny, check_require, first_denied,
  first_unmet, type_allowed,
}

module _ (container_text : Value → Text) (event_type : Text) (payload : Value) where
  -- Does this route take the event?
  abbrev pub takes : SinkRoute → Bool
  takes r = (route_verdict container_text r event_type payload).admitted

  abbrev pub route_name : SinkRoute → Text
  route_name r = r.name

  abbrev pub refusal : SinkRoute → Text × FilterVerdict
  refusal r = (r.name, route_verdict container_text r event_type payload)

  -- One pass over the routes computes two lists, in the order of the configuration: the sinks whose
  -- route takes the event, and each other sink with the verdict of its own filter.
  pub route_lem :
      (routes : List SinkRoute)
      → route container_text routes event_type payload
        ≡ (map route_name (filter takes routes), map refusal (filter (λ r. not (takes r)) routes))
  unfolding route route_verdict
  route_lem [] = refl
  route_lem (r ∷ routes) = elim (Bool-cases (takes r)) [
    | inl yes_it ↦ rw (yes_it, route_lem routes)
    | inr no_it ↦ rw (no_it, route_lem routes)
  ]

  -- The reasons a route can refuse for (`ROUTE_REASONS`): it refuses with one, and never with `sink`.
  refused_reason :
      (d u : Option Text)
      → (check_deny d (check_require u)).admitted ≡ false
      → ((check_deny d (check_require u)).reason ≢ none)
        × ((check_deny d (check_require u)).reason ≢ some Reason.sink)
  unfolding check_deny check_require
  refused_reason none none h = absurd (cc)
  refused_reason none (some u) h = (λ e. cc, λ e. cc)
  refused_reason (some d) u h = (λ e. cc, λ e. cc)

  verdict_reason :
      (f : EventFilter)
      → (evaluate container_text f event_type payload).admitted ≡ false
      → ((evaluate container_text f event_type payload).reason ≢ none)
        × ((evaluate container_text f event_type payload).reason ≢ some Reason.sink)
  unfolding evaluate
  verdict_reason f h = elim (Bool-cases (type_allowed f.event_types event_type)) [
    | inl ok ↦ rw ok (
        refused_reason (first_denied container_text f.deny payload)
          (first_unmet container_text f.require payload) (rw ok at h))
    | inr bad ↦ rw bad (λ e. cc, λ e. cc)
  ]
