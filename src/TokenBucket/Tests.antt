-- ===== src/TokenBucket/Tests.antt =====
-- Runs of the token bucket at concrete inputs.
use boilerplate_express_ts.Prelude.{◌+◌, ◌-◌, ◌*◌, ◌≤◌, ◌≡◌, refl, true, some, List, [], ◌∷◌, arith}
use boilerplate_express_ts.TokenBucket.{
  TokenBucket, thousandths, create_token_bucket, refill, spend, try_remove, available, ceil_div,
  wait_for, retry_after_seconds,
}
use boilerplate_express_ts.TokenBucket.Allowance.{
  Event, tries, looks, asks, step, after, spent_by, spent, spent_within,
}
use boilerplate_express_ts.TokenBucket.Waiting.{retry_after_suffices}

-- A burst of three messages, and two in a second.
abbrev chat : TokenBucket
chat = record { capacity = 3; refill_per_second = 2; tokens = 3000; last_refill_ms = 100 }

chat_built : create_token_bucket 3 2 100 ≡ some chat
unfolding create_token_bucket
chat_built = refl

abbrev burst : List Event
burst = tries 1 100 ∷ tries 1 150 ∷ tries 1 200 ∷ tries 2 700 ∷ []

burst_cost : spent burst chat ≡ 3
unfolding spent step spent_by try_remove spend refill
burst_cost = refl

burst_tokens : (after burst chat).tokens ≡ 1200
unfolding after step try_remove spend refill
burst_tokens = refl

told : (retry_after_seconds 2 700 (after burst chat)).1 ≡ 1
unfolding after step try_remove spend refill retry_after_seconds wait_for ceil_div
told = refl

-- A clock that goes back has the second from 100 to 1100 refilled twice.
twice_refilled : (after (tries 3 100 ∷ looks 600 ∷ looks 100 ∷ looks 600 ∷ []) chat).tokens ≡ 2000
unfolding after step try_remove spend refill available
twice_refilled = refl

abbrev more : List Event
more = tries 1 800 ∷ asks 3 850 ∷ tries 1 900 ∷ []

spent_within_example :
    thousandths (spent more (after burst chat))
    ≤ thousandths 3 + (1000 - (after burst chat).last_refill_ms) * 2
unfolding after step try_remove spend refill
spent_within_example =
    spent_within 3 2 100 700 1000 chat burst more chat_built (omega arith)
      (omega arith, (omega arith, (omega arith, omega arith)))

retry_after_suffices_example :
    (c : TokenBucket) × (try_remove 2 1700 (retry_after_seconds 2 700 (after burst chat)).0
      ≡ some (c, true))
unfolding after step try_remove spend refill retry_after_seconds wait_for ceil_div
retry_after_suffices_example =
    retry_after_suffices 3 2 100 chat burst chat_built 2 700 (omega arith) (omega arith) 1700
      (omega arith) (omega arith)
