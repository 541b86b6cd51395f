-- ===== src/TokenBucket/Waiting.antt =====
-- src/ws/token-bucket.ts: what `retryAfterSeconds` tells a client.
use boilerplate_express_ts.Prelude.{
  ℕ, ◌+◌, ◌-◌, ◌*◌, ◌≤◌, ◌<◌, ◌≡◌, refl, ap, inl, inr, min, Bool, true, false, some, List, leb,
  ◌==◌, arith, Bool-cases,
}
use boilerplate_express_ts.TokenBucket.{
  TokenBucket, thousandths, create_token_bucket, refill, spend, try_remove, ceil_div, wait_for,
  retry_after_seconds,
}
use boilerplate_express_ts.TokenBucket.Allowance.{
  Event, after, IsWithin, after-IsWithin, created-IsWithin,
}

ceil_div-covers : (a d : ℕ) → 1 ≤ d → a ≤ ceil_div a d * d
unfolding ceil_div
ceil_div-covers a d h = grind arith

ceil_div-tight : (a d s : ℕ) → 1 ≤ d → s < ceil_div a d → s * d < a
unfolding ceil_div
ceil_div-tight a d s h g = grind arith

refill_forward :
    (now : ℕ) (b : TokenBucket)
    → b.last_refill_ms ≤ now
    → b.tokens ≤ thousandths b.capacity
    → refill now b ≡ record b {
      tokens =
          min (thousandths b.capacity) (b.tokens + (now - b.last_refill_ms) * b.refill_per_second);
      last_refill_ms = now;
    }
unfolding refill
refill_forward now b h fits = elim (Bool-cases (leb now b.last_refill_ms)) [
  | inr e ↦ rw e refl
  | inl e ↦
      let same : b.tokens
          ≡ min (thousandths b.capacity)
              (b.tokens + (now - b.last_refill_ms) * b.refill_per_second) =
        ground (arith, h, fits) in
      rw e (ap (λ n. record b { tokens = n; last_refill_ms = now }) same)
]

wait_for-enough :
    (cost : ℕ) (b : TokenBucket)
    → 1 ≤ b.refill_per_second
    → thousandths cost ≤ b.tokens + wait_for cost b * thousandths b.refill_per_second
unfolding wait_for
wait_for-enough cost b pos = elim (Bool-cases (leb (thousandths cost) b.tokens)) [
  | inl e ↦ rw (e, wait_for) (ground arith)
  | inr e ↦
      let covers =
        ceil_div-covers (thousandths cost - b.tokens) (thousandths b.refill_per_second)
          (omega (arith, pos)) in
      rw (e, wait_for) (omega (arith, covers))
]

wait_for_short :
    (cost : ℕ) (b : TokenBucket)
    → leb (thousandths cost) b.tokens ≡ false
    → wait_for cost b ≡ ceil_div (thousandths cost - b.tokens) (thousandths b.refill_per_second)
unfolding wait_for
wait_for_short cost b e = rw (e, wait_for) refl

wait_for-tight :
    (s cost : ℕ) (b : TokenBucket)
    → 1 ≤ b.refill_per_second
    → s < wait_for cost b
    → b.tokens + s * thousandths b.refill_per_second < thousandths cost
unfolding wait_for
wait_for-tight s cost b pos g = elim (Bool-cases (leb (thousandths cost) b.tokens)) [
  | inl e ↦ absurd (ground (arith, e, g))
  | inr e ↦
      let tight =
        ceil_div-tight (thousandths cost - b.tokens) (thousandths b.refill_per_second) s
          (omega (arith, pos)) (omega (arith, g, wait_for_short cost b e)) in
      omega (arith, tight)
]

-- What a bucket has after some time without an operation.
tokens_later :
    (now later : ℕ) (b : TokenBucket)
    → b.last_refill_ms ≡ now
    → now ≤ later
    → b.tokens ≤ thousandths b.capacity
    → (refill later b).tokens
      ≡ min (thousandths b.capacity) (b.tokens + (later - now) * b.refill_per_second)
tokens_later now later b e h fits = rw (refill_forward later b (omega (arith, e, h)) fits, e) refl

try_remove-spend :
    (cost later : ℕ) (b : TokenBucket) (answer : Bool)
    → 1 ≤ cost
    → (spend cost (refill later b)).1 ≡ answer
    → (c : TokenBucket) × (try_remove cost later b ≡ some (c, answer))
unfolding try_remove
try_remove-spend cost later b answer h e =
    let some_cost : cost == 0 ≡ false = ground (arith, h) in
    (
      (spend cost (refill later b)).0,
      rw (some_cost, try_remove) (ap (λ a. some ((spend cost (refill later b)).0, a)) e),
    )

scaled : (x y r : ℕ) → x ≤ y → x * r ≤ y * r
scaled x y r h = grind arith

thousand_times : (w r : ℕ) → 1000 * w * r ≡ w * thousandths r
thousand_times w r = grind arith

long_enough : (w y r : ℕ) → 1000 * w ≤ y → w * thousandths r ≤ y * r
long_enough w y r h = omega (arith, scaled (1000 * w) y r h, thousand_times w r)

too_short : (w y r : ℕ) → y ≤ 1000 * w → y * r ≤ w * thousandths r
too_short w y r h = omega (arith, scaled y (1000 * w) r h, thousand_times w r)

spend_affordable :
    (cost : ℕ) (b : TokenBucket) → thousandths cost ≤ b.tokens → (spend cost b).1 ≡ true
unfolding spend
spend_affordable cost b h = ground (arith, h)

spend_short : (cost : ℕ) (b : TokenBucket) → b.tokens < thousandths cost → (spend cost b).1 ≡ false
unfolding spend
spend_short cost b h = ground (arith, h)

created_rate :
    (capacity rate now : ℕ) (b : TokenBucket)
    → create_token_bucket capacity rate now ≡ some b
    → 1 ≤ rate
unfolding create_token_bucket
created_rate capacity rate now b h = ground (arith, h)

module _ (capacity rate start : ℕ) (b : TokenBucket) (before : List Event)
    (made : create_token_bucket capacity rate start ≡ some b) (cost now : ℕ) (some_cost : 1 ≤ cost)
    (read : (after before b).last_refill_ms ≤ now) where
  within : IsWithin capacity rate (after before b)
  within = after-IsWithin capacity rate before b (created-IsWithin capacity rate start b made)

  -- The bucket that `retryAfterSeconds` leaves.
  asked_tokens :
      ((retry_after_seconds cost now (after before b)).0.last_refill_ms ≡ now)
      × IsWithin capacity rate (retry_after_seconds cost now (after before b)).0
  unfolding retry_after_seconds refill
  asked_tokens = ground (arith, within, read)

  -- After any history of a bucket that was created, a client who is told a number of seconds, for a cost
  -- that is within the capacity and 1 or more, and waits that long or longer has its message admitted, unless
  -- there was another operation in between. The clock that it asked at is not behind the last reading of
  -- the history.
  pub retry_after_suffices :
      (later : ℕ)
      → cost ≤ capacity
      → now + 1000 * (retry_after_seconds cost now (after before b)).1 ≤ later
      → (c : TokenBucket) × (try_remove cost later (retry_after_seconds cost now (after before b)).0
          ≡ some (c, true))
  unfolding retry_after_seconds
  retry_after_suffices later fits waited =
      let c = refill now (after before b) in
      let (seen, (kept, same_rate, full)) = asked_tokens in
      let pos : 1 ≤ c.refill_per_second =
        omega (arith, same_rate, created_rate capacity rate start b made) in
      let order : now ≤ later = omega (arith, waited) in
      let held = tokens_later now later c seen order (omega (arith, full, kept)) in
      let enough = wait_for-enough cost c pos in
      let credit =
        long_enough (wait_for cost c) (later - now) c.refill_per_second (omega (arith, waited)) in
      try_remove-spend cost later c true some_cost
        (spend_affordable cost (refill later c) (omega (arith, held, enough, credit, kept, fits)))

  -- A client who waits a second less, or no time at all, when it was told to wait is refused.
  pub retry_after_needed :
      (sooner : ℕ)
      → now ≤ sooner
      → sooner + 1000 ≤ now + 1000 * (retry_after_seconds cost now (after before b)).1
      → (c : TokenBucket) × (try_remove cost sooner
            (retry_after_seconds cost now (after before b)).0
          ≡ some (c, false))
  unfolding retry_after_seconds
  retry_after_needed sooner order waited =
      let c = refill now (after before b) in
      let (seen, (kept, same_rate, full)) = asked_tokens in
      let pos : 1 ≤ c.refill_per_second =
        omega (arith, same_rate, created_rate capacity rate start b made) in
      let held = tokens_later now sooner c seen order (omega (arith, full, kept)) in
      let short : wait_for cost c - 1 < wait_for cost c = omega (arith, order, waited) in
      let lacks = wait_for-tight (wait_for cost c - 1) cost c pos short in
      let credit =
        too_short (wait_for cost c - 1) (sooner - now) c.refill_per_second
          (omega (arith, waited)) in
      try_remove-spend cost sooner c false some_cost
        (spend_short cost (refill sooner c) (omega (arith, held, lacks, credit)))
