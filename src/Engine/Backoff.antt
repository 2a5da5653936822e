-- ===== src/Engine/Backoff.antt =====
-- How long before the next attempt (webhook_doorman/engine.py, `retry_delay_seconds`,
-- `backoff_seconds` and `_jittered`), in whole milliseconds; the jitter is a share in thousandths.
-- `random.uniform(-spread, spread)` is the argument `draw`, counted from `-spread`, so that it lies
-- between 0 and `2 * spread`.
use webhook_doorman.Prelude.{
  ℕ, ◌+◌, ◌-◌, ◌*◌, ◌/◌, ◌^◌, ◌≤◌, ◌<◌, ◌≡◌, refl, ap, true, Option, none, some, min, arith,
}
use webhook_doorman.Prelude.Tests.{if◌then◌else◌, ltb}
use webhook_doorman.Engine.Setup.{Setup}

abbrev pub spread : ℕ → ℕ → ℕ
spread delay jitter = delay * jitter / 1000

-- `max(0.0, seconds + uniform)`: the subtraction stops at 0.
unfoldable pub jittered : ℕ → ℕ → ℕ → ℕ
jittered delay jitter draw = delay + draw - spread delay jitter

mul_mono : (a b j : ℕ) → a ≤ b → a * j ≤ b * j
mul_mono a b j h = grind arith

jittered_bounds :
    (delay cap jitter draw : ℕ)
    → delay ≤ cap
    → draw ≤ 2 * spread delay jitter
    → (jittered delay jitter draw ≤ cap + cap * jitter / 1000)
      × (delay ≤ jittered delay jitter draw + spread delay jitter)
unfolding jittered
jittered_bounds delay cap jitter draw h d =
    let wider : delay * jitter ≤ cap * jitter = mul_mono delay cap jitter h in omega arith

module _ (u : Setup) where
  -- `2 ** max(0, attempt - 1)`, or what the destination asked for. The power is an `int` and is turned
  -- into a `float` to be multiplied: from 2 ** 1024 on that is an `OverflowError`, which is `none`.
  unfoldable pub raw_delay : ℕ → Option ℕ → Option ℕ
  raw_delay attempt none =
      if ltb attempt 1025 then some (u.base_backoff * 2 ^ (attempt - 1)) else none
  raw_delay attempt (some retry_after) = some retry_after

  abbrev pub clamp : Option ℕ → Option ℕ
  clamp none = none
  clamp (some raw) = some (min raw u.max_backoff)

  unfoldable pub clamped_delay : ℕ → Option ℕ → Option ℕ
  unfolding raw_delay
  clamped_delay attempt retry_after = clamp (raw_delay attempt retry_after)

  abbrev pub jitter_by : Option ℕ → ℕ → Option ℕ
  jitter_by none draw = none
  jitter_by (some delay) draw = some (jittered delay u.jitter draw)

  unfoldable pub retry_delay : ℕ → Option ℕ → ℕ → Option ℕ
  unfolding jittered clamped_delay
  retry_delay attempt retry_after draw = jitter_by (clamped_delay attempt retry_after) draw

  -- Before the overflow there is a delay.
  pub retry_delay_known :
      (attempt draw : ℕ)
      → attempt < 1025
      → (delay : ℕ) × (retry_delay attempt none draw ≡ some delay)
  unfolding retry_delay clamped_delay raw_delay
  retry_delay_known attempt draw h =
      let small : ltb attempt 1025 ≡ true = ground arith in rw small (_, refl)

  -- The share of a delay that the jitter moves it by, at most, to either side.
  abbrev pub share : ℕ → ℕ
  share delay = spread delay u.jitter

  -- What becomes of a clamped delay: it is moved by the draw, within the share, and both ends are met.
  pub record IsJittered (attempt : ℕ) (retry_after : Option ℕ) (draw delay : ℕ) : Type 0 where
    pub moved : ℕ
    pub given : retry_delay attempt retry_after draw ≡ some moved
    pub capped : moved ≤ u.max_backoff + share u.max_backoff
    pub least : delay ≤ moved + share delay
    pub most : moved ≤ delay + share delay
    pub first : retry_delay attempt retry_after 0 ≡ some (delay - share delay)
    pub last : retry_delay attempt retry_after (2 * share delay) ≡ some (delay + share delay)

  clamped_le : (o : Option ℕ) (delay : ℕ) → clamp o ≡ some delay → delay ≤ u.max_backoff
  clamped_le none delay e = absurd (cc)
  clamped_le (some raw) delay e = let same : min raw u.max_backoff ≡ delay = cc in omega arith

  -- A destination cannot park a delivery, and cannot escape the jitter. Whatever `Retry-After` it
  -- sends, and whatever the draw: the delay is at most the cap and the share of the cap that the jitter
  -- may add; it is within its share of the clamped delay; and it does move, from the clamped delay less
  -- the share, at the least draw, to the clamped delay and the share, at the greatest.
  pub retry_delay_bounds :
      (attempt : ℕ) (retry_after : Option ℕ) (draw delay : ℕ)
      → clamped_delay attempt retry_after ≡ some delay
      → draw ≤ 2 * share delay
      → IsJittered attempt retry_after draw delay
  unfolding jittered retry_delay clamped_delay
  retry_delay_bounds attempt retry_after draw delay e h =
      let below : delay ≤ u.max_backoff = clamped_le (raw_delay attempt retry_after) delay e in
      let bounds = jittered_bounds delay u.max_backoff u.jitter draw below h in
      record {
        moved = jittered delay u.jitter draw;
        given = rw e refl;
        capped = bounds.0;
        least = bounds.1;
        most = omega arith;
        first = rw e (ap some (omega arith));
        last = rw e (ap some (omega arith));
      }
