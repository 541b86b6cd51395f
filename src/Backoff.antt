-- ===== src/Backoff.antt =====
-- src/lib/backoff.ts. `random()` is a fraction `r / 2 ^ 53` with `r < 2 ^ 53`, and the product with
-- the cap is exact. Attempts are numbered from 1.
use boilerplate_express_ts.Prelude.{ℕ, ◌-◌, ◌*◌, ◌/◌, ◌^◌, ◌<◌, min, arith}

abbrev pub unit : ℕ
unit = 9007199254740992

-- The ceiling of the delay for an attempt, `Math.min(maxMs, baseMs * 2 ** (attempt - 1))`.
abbrev pub cap : ℕ → ℕ → ℕ → ℕ
cap attempt base_ms max_ms = min max_ms (base_ms * 2 ^ (attempt - 1))

unfoldable pub full_jitter_delay : ℕ → ℕ → ℕ → ℕ → ℕ
full_jitter_delay attempt base_ms max_ms random = random * cap attempt base_ms max_ms / unit

scaled_lt : (r c : ℕ) → r < unit → 0 < c → r * c / unit < c
scaled_lt r c h pos = grind arith

-- A delay lies below the cap of its attempt.
pub full_jitter_delay-lt-cap :
    (attempt base_ms max_ms random : ℕ)
    → random < unit
    → 0 < cap attempt base_ms max_ms
    → full_jitter_delay attempt base_ms max_ms random < cap attempt base_ms max_ms
unfolding full_jitter_delay
full_jitter_delay-lt-cap attempt base_ms max_ms random h pos =
    scaled_lt random (cap attempt base_ms max_ms) h pos
