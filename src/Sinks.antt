-- ===== src/Sinks.antt =====
-- What an HTTP sink makes of an answer (webhook_doorman/sinks/base.py). The exchange itself is what
-- `client.request` gave; `float`, `parsedate_to_datetime` and the two clocks are arguments. Delays are
-- in milliseconds, times in microseconds.
pub mod Answers
use webhook_doorman.Prelude.{
  ℕ, ◌-◌, ◌/◌, Bool, true, false, ◌||◌, Option, none, some, List, [], ◌∷◌, ◌++◌,
}
use webhook_doorman.Prelude.Tests.{if◌then◌else◌, ltb, leb, ◌==◌}
use webhook_doorman.Prelude.Lists.{take}
use webhook_doorman.Prelude.Text.{Text, codes, strip}
use webhook_doorman.Context.{decimal}
use webhook_doorman.Engine.Setup.{SinkResult}

-- The parts of a response that are read.
pub record HttpResponse : Type 0 where
  pub status_code : ℕ
  pub location : Option Text
  pub retry_after : Option Text
  pub text : Text

pub data Disposition : Type 0 where
  delivered retryable permanent : Disposition

pub record Verdict : Type 0 where
  pub disposition : Disposition
  pub reason : Option Text

abbrev pub destination_body_chars : ℕ
destination_body_chars = 80

-- `f" to {location[:120]}" if location else ""`.
abbrev pub redirect_target : Option Text → Text
redirect_target none = []
redirect_target (some []) = []
redirect_target (some (c ∷ t)) = codes " to " ++ take 120 (c ∷ t)

unfoldable pub redirect_reason : Option Text → Text
redirect_reason location =
    codes "destination redirected"
    ++ (redirect_target location
        ++ codes
            "; redirects are not followed because a webhook URL carries its own credential — point the sink at the final URL")

unfoldable pub classify : HttpResponse → Verdict
classify response =
    if ltb response.status_code 300
    then record { disposition = Disposition.delivered; reason = none }
    else if ltb response.status_code 400
    then record {
      disposition = Disposition.permanent;
      reason = some (redirect_reason response.location);
    }
    else if (response.status_code == 408 || response.status_code == 429)
        || leb 500 response.status_code
    then record { disposition = Disposition.retryable; reason = none }
    else record { disposition = Disposition.permanent; reason = none }

-- What `float` reads.
pub data Seconds : Type 0 where
  finite : ℕ → Seconds
  negative : Seconds
  not_finite : Seconds

abbrev pub usable : Seconds → Option ℕ
usable (Seconds.finite delay) = some delay
usable Seconds.negative = none
usable Seconds.not_finite = none

-- `max(0.0, (when - now).total_seconds())`: the subtraction stops at 0.
abbrev pub until_time : ℕ → Option ℕ → Option ℕ
until_time now none = none
until_time now (some when) = some ((when - now) / 1000)

-- How `client.request` ended, with the text of its exception.
pub data Exchange : Type 0 where
  answered : HttpResponse → Exchange
  unicode_error : Text → Exchange
  timeout : Text → Exchange
  local_protocol_error : Text → Exchange
  http_error : Text → Exchange

-- `verdict.reason or response.text[:80]`.
abbrev pub detail : Option Text → Text → Text
detail none text = take destination_body_chars text
detail (some []) text = take destination_body_chars text
detail (some (c ∷ reason)) text = c ∷ reason

abbrev pub status_error : Text → ℕ → Text → Text
status_error name code why = name ++ (codes ": HTTP " ++ (decimal code ++ (codes ": " ++ why)))

module _ (parse_float : Text → Option Seconds) (parse_date : Text → Option ℕ) where
  abbrev pub read_delay : ℕ → Text → Option Seconds → Option ℕ
  read_delay now raw (some seconds) = usable seconds
  read_delay now raw none = until_time now (parse_date raw)

  abbrev pub read_header : ℕ → Text → Option ℕ
  read_header now [] = none
  read_header now (c ∷ raw) = read_delay now (c ∷ raw) (parse_float (c ∷ raw))

  unfoldable pub parse_retry_after : Option Text → ℕ → Option ℕ
  unfolding strip
  parse_retry_after none now = none
  parse_retry_after (some value) now = read_header now (strip value)

  unfoldable pub conclude_as : Disposition → Text → HttpResponse → ℕ → ℕ → SinkResult
  conclude_as Disposition.delivered error response elapsed now =
      SinkResult.delivered (some response.status_code) elapsed
  conclude_as Disposition.retryable error response elapsed now =
      SinkResult.sink_error error (some response.status_code) elapsed
        (parse_retry_after response.retry_after now)
  conclude_as Disposition.permanent error response elapsed now =
      SinkResult.permanent_error error (some response.status_code) elapsed

  unfoldable pub conclude_answer : Text → HttpResponse → Verdict → ℕ → ℕ → SinkResult
  unfolding conclude_as
  conclude_answer name response verdict elapsed now =
      conclude_as verdict.disposition
        (status_error name response.status_code (detail verdict.reason response.text)) response
        elapsed now

  unfoldable pub send : Text → Exchange → ℕ → ℕ → SinkResult
  unfolding classify conclude_answer
  send name (answered response) elapsed now =
      conclude_answer name response (classify response) elapsed now
  send name (unicode_error exc) elapsed now =
      SinkResult.permanent_error (name ++ (codes ": cannot encode request: " ++ exc)) none 0
  send name (timeout exc) elapsed now =
      SinkResult.sink_error
        (name ++ (codes ": timeout after " ++ (decimal elapsed ++ (codes "ms: " ++ exc)))) none
        elapsed none
  send name (local_protocol_error exc) elapsed now =
      SinkResult.permanent_error (name ++ (codes ": request refused before sending: " ++ exc)) none
        elapsed
  send name (http_error exc) elapsed now =
      SinkResult.sink_error (name ++ (codes ": transport error: " ++ exc)) none elapsed none
