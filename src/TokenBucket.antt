-- ===== src/TokenBucket.antt =====
-- src/ws/token-bucket.ts. The rate is a whole number of tokens per second and the clock one of
-- milliseconds, so that tokens are kept in thousandths, and the arithmetic is exact. Each operation
-- reads the clock once; the reading is its argument.
pub mod Allowance
pub mod Waiting
mod Tests
use boilerplate_express_ts.Prelude.{
  ℕ, ◌+◌, ◌-◌, ◌*◌, ◌/◌, min, Bool, true, false, ◌||◌, Option, none, some, leb, ltb, ◌==◌,
  if◌then◌else◌,
}

pub record TokenBucket : Type 0 where
  pub capacity : ℕ
  pub refill_per_second : ℕ
  -- In thousandths.
  pub tokens : ℕ
  pub last_refill_ms : ℕ

abbrev pub thousandths : ℕ → ℕ
thousandths n = 1000 * n

-- `none` is a `RangeError`.
unfoldable pub create_token_bucket : ℕ → ℕ → ℕ → Option TokenBucket
create_token_bucket capacity refill_per_second now =
    if capacity == 0 || refill_per_second == 0
    then none
    else some (record {
      capacity = capacity;
      refill_per_second = refill_per_second;
      tokens = thousandths capacity;
      last_refill_ms = now;
    })

unfoldable pub refill : ℕ → TokenBucket → TokenBucket
refill now b = if leb now b.last_refill_ms then record b { last_refill_ms = now } else record b {
  tokens = min (thousandths b.capacity) (b.tokens + (now - b.last_refill_ms) * b.refill_per_second);
  last_refill_ms = now;
}

-- The Boolean is whether the tokens were spent; `none` is a `RangeError`.
unfoldable pub spend : ℕ → TokenBucket → TokenBucket × Bool
spend cost b =
    if ltb b.tokens (thousandths cost)
    then (b, false)
    else (record b { tokens = b.tokens - thousandths cost }, true)

unfoldable pub try_remove : ℕ → ℕ → TokenBucket → Option (TokenBucket × Bool)
unfolding spend
try_remove cost now b = if cost == 0 then none else some (spend cost (refill now b))

unfoldable pub available : ℕ → TokenBucket → TokenBucket × ℕ
unfolding refill
available now b = (refill now b, (refill now b).tokens)

-- `Math.ceil` of a fraction.
unfoldable pub ceil_div : ℕ → ℕ → ℕ
ceil_div a d = (a + (d - 1)) / d

unfoldable pub wait_for : ℕ → TokenBucket → ℕ
unfolding ceil_div
wait_for cost b =
    if leb (thousandths cost) b.tokens
    then 0
    else ceil_div (thousandths cost - b.tokens) (thousandths b.refill_per_second)

unfoldable pub retry_after_seconds : ℕ → ℕ → TokenBucket → TokenBucket × ℕ
unfolding refill wait_for
retry_after_seconds cost now b = (refill now b, wait_for cost (refill now b))
