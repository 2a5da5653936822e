-- ===== src/Sinks/Answers.antt =====
-- Which answers count as delivered, which are tried again, and which are given up
-- (webhook_doorman/sinks/base.py, `_classify` and `_send`, with `_deliver_once` of engine.py).
use webhook_doorman.Prelude.{
  ℕ, ◌≤◌, ◌<◌, ◌≡◌, refl, ◌↔◌, ◌⊎◌, inl, inr, Bool, true, false, ◌||◌, Option, arith,
}
use webhook_doorman.Prelude.Tests.{ltb, leb, ◌==◌, Bool-cases}
use webhook_doorman.Prelude.Text.{Text}
use webhook_doorman.Engine.Setup.{SinkResult}
use webhook_doorman.Sinks.{
  HttpResponse, Seconds, answered, classify, conclude_answer, conclude_as, send,
}

abbrev pub is_delivered : SinkResult → Bool
is_delivered (SinkResult.delivered code latency) = true
is_delivered _ = false

-- Is the attempt one that the engine may repeat?
abbrev pub is_repeatable : SinkResult → Bool
is_repeatable (SinkResult.sink_error error code latency after) = true
is_repeatable (SinkResult.other_error error) = true
is_repeatable _ = false

-- The statuses that ask for another try.
abbrev pub AsksAgain : ℕ → Type 0
AsksAgain code = (code ≡ 408) ⊎ (code ≡ 429) ⊎ (500 ≤ code)

module _ (parse_float : Text → Option Seconds) (parse_date : Text → Option ℕ) (name : Text) where
  send_bits :
      (r : HttpResponse) (elapsed now : ℕ)
      → (is_delivered (send parse_float parse_date name (answered r) elapsed now)
          ≡ ltb r.status_code 300)
        × (is_repeatable (send parse_float parse_date name (answered r) elapsed now)
            ≡ ((r.status_code == 408 || r.status_code == 429) || leb 500 r.status_code))
  unfolding send classify conclude_answer conclude_as
  send_bits r elapsed now = elim (Bool-cases (ltb r.status_code 300)) [
    | inl good ↦ rw good (refl, ground arith)
    | inr bad ↦ elim (Bool-cases (ltb r.status_code 400)) [
      | inl moved ↦ rw (bad, moved) (refl, ground arith)
      | inr refused ↦
          elim (Bool-cases
            ((r.status_code == 408 || r.status_code == 429) || leb 500 r.status_code)) [
              | inl again ↦ rw (bad, refused, again) (refl, refl)
              | inr never ↦ rw (bad, refused, never) (refl, refl)
            ]
    ]
  ]

  asks_iff : (code : ℕ) → (((code == 408 || code == 429) || leb 500 code) ≡ true) ↔ AsksAgain code
  asks_iff code = ground arith

  -- An answer counts as delivered exactly when its status is below 300, and is tried again exactly
  -- when it is 408, 429 or at least 500; every other answer, a redirect among them, is given up at
  -- once.
  pub send_iff :
      (r : HttpResponse) (elapsed now : ℕ)
      → ((is_delivered (send parse_float parse_date name (answered r) elapsed now) ≡ true)
          ↔ (r.status_code < 300))
        × ((is_repeatable (send parse_float parse_date name (answered r) elapsed now) ≡ true)
            ↔ AsksAgain r.status_code)
  send_iff r elapsed now =
      rw ((send_bits r elapsed now).0, (send_bits r elapsed now).1)
        (ground arith, asks_iff r.status_code)
