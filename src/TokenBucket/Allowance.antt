-- ===== src/TokenBucket/Allowance.antt =====
-- src/ws/token-bucket.ts over a history: what is spent, and what the time refills.
use boilerplate_express_ts.Prelude.{
  ℕ, ◌+◌, ◌-◌, ◌*◌, ◌≤◌, ◌≡◌, inl, inr, none, some, List, [], ◌∷◌, ◌==◌, if◌then◌else◌, arith,
  Bool-cases,
}
use boilerplate_express_ts.TokenBucket.{
  TokenBucket, thousandths, create_token_bucket, refill, spend, try_remove, available,
  retry_after_seconds,
}

-- The operations, each with its reading of the clock.
pub data Event : Type 0 where
  tries : (cost now : ℕ) → Event
  looks : (now : ℕ) → Event
  asks : (cost now : ℕ) → Event

abbrev pub at : Event → ℕ
at (tries cost now) = now
at (looks now) = now
at (asks cost now) = now

unfoldable pub step : Event → TokenBucket → TokenBucket
step (tries cost now) b = elim (try_remove cost now b) [ none ↦ b | some (c, spent) ↦ c ]
step (looks now) b = (available now b).0
step (asks cost now) b = (retry_after_seconds cost now b).0

-- The tokens that an operation spends.
unfoldable pub spent_by : Event → TokenBucket → ℕ
spent_by (tries cost now) b = elim (try_remove cost now b) [
  | none ↦ 0
  | some (c, spent) ↦ if spent then cost else 0
]
spent_by (looks now) b = 0
spent_by (asks cost now) b = 0

unfoldable pub after : List Event → TokenBucket → TokenBucket
unfolding step
after [] b = b
after (e ∷ es) b = after es (step e b)

unfoldable pub spent : List Event → TokenBucket → ℕ
unfolding step spent_by
spent [] b = 0
spent (e ∷ es) b = spent_by e b + spent es (step e b)

-- The clock reads no less than before, up to `last`.
abbrev pub IsMonotone : ℕ → List Event → ℕ → Type 0
IsMonotone t [] last = t ≤ last
IsMonotone t (e ∷ es) last = (t ≤ at e) × IsMonotone (at e) es last

-- The readings of a bucket's options are not changed.
abbrev pub IsWithin : ℕ → ℕ → TokenBucket → Type 0
IsWithin capacity rate b =
    (b.capacity ≡ capacity) × (b.refill_per_second ≡ rate) × (b.tokens ≤ 1000 * capacity)

refill-IsWithin : (c r now : ℕ) (b : TokenBucket) → IsWithin c r b → IsWithin c r (refill now b)
unfolding refill
refill-IsWithin c r now b h = ground (arith, h)

spend-IsWithin : (c r cost : ℕ) (b : TokenBucket) → IsWithin c r b → IsWithin c r (spend cost b).0
unfolding spend
spend-IsWithin c r cost b h = ground (arith, h)

step-IsWithin : (c r : ℕ) (e : Event) (b : TokenBucket) → IsWithin c r b → IsWithin c r (step e b)
unfolding step try_remove available retry_after_seconds
step-IsWithin c r (tries cost now) b h = elim (Bool-cases (cost == 0)) [
  | inl e ↦ rw (e, step, try_remove) h
  | inr e ↦
      rw (e, step, try_remove)
        (spend-IsWithin c r cost (refill now b) (refill-IsWithin c r now b h))
]
step-IsWithin c r (looks now) b h = refill-IsWithin c r now b h
step-IsWithin c r (asks cost now) b h = refill-IsWithin c r now b h

pub intervals : (a b c r : ℕ) → a ≤ b → b ≤ c → (b - a) * r + (c - b) * r ≡ (c - a) * r
intervals a b c r h g = grind arith

-- The tokens that may be spent until `last`.
abbrev budget : ℕ → TokenBucket → ℕ
budget last b = b.tokens + (last - b.last_refill_ms) * b.refill_per_second

refill-budget :
    (last now : ℕ) (b : TokenBucket)
    → b.last_refill_ms ≤ now
    → now ≤ last
    → (budget last (refill now b) ≤ budget last b) × ((refill now b).last_refill_ms ≡ now)
unfolding refill
refill-budget last now b le fits =
    ground (arith, le, intervals b.last_refill_ms now last b.refill_per_second le fits)

spend-budget :
    (last cost : ℕ) (b : TokenBucket)
    → (thousandths (if (spend cost b).1 then cost else 0) + budget last (spend cost b).0
        ≡ budget last b)
      × ((spend cost b).0.last_refill_ms ≡ b.last_refill_ms)
unfolding spend
spend-budget last cost b = ground arith

step-budget :
    (last : ℕ) (e : Event) (b : TokenBucket)
    → b.last_refill_ms ≤ at e
    → at e ≤ last
    → (thousandths (spent_by e b) + budget last (step e b) ≤ budget last b)
      × ((step e b).last_refill_ms ≤ at e)
unfolding step spent_by try_remove available retry_after_seconds
step-budget last (tries cost now) b le fits = elim (Bool-cases (cost == 0)) [
  | inl e ↦ rw (e, step, spent_by, try_remove) (omega arith, le)
  | inr e ↦
      let (less, read) = refill-budget last now b le fits in
      let (same, kept) = spend-budget last cost (refill now b) in
      rw (e, step, spent_by, try_remove) (omega (arith, less, same), omega (arith, read, kept))
]
step-budget last (looks now) b le fits =
    let (less, read) = refill-budget last now b le fits in
    (omega (arith, less), omega (arith, read))
step-budget last (asks cost now) b le fits =
    let (less, read) = refill-budget last now b le fits in
    (omega (arith, less), omega (arith, read))

IsMonotone-le : (t last : ℕ) (es : List Event) → IsMonotone t es last → t ≤ last
IsMonotone-le t last [] h = h
IsMonotone-le t last (e ∷ es) h = omega (arith, h.0, IsMonotone-le (at e) last es h.1)

spent-budget :
    (t last : ℕ) (es : List Event) (b : TokenBucket)
    → b.last_refill_ms ≤ t
    → IsMonotone t es last
    → thousandths (spent es b) ≤ budget last b
unfolding spent
spent-budget t last [] b le h = omega arith
spent-budget t last (e ∷ es) b le h =
    let (less, read) =
      step-budget last e b (omega (arith, le, h.0)) (IsMonotone-le (at e) last es h.1) in
    omega (arith, less, spent-budget (at e) last es (step e b) read h.1)

pub after-IsWithin :
    (c r : ℕ) (es : List Event) (b : TokenBucket) → IsWithin c r b → IsWithin c r (after es b)
unfolding after
after-IsWithin c r [] b h = h
after-IsWithin c r (e ∷ es) b h = after-IsWithin c r es (step e b) (step-IsWithin c r e b h)

pub created-IsWithin :
    (capacity rate now : ℕ) (b : TokenBucket)
    → create_token_bucket capacity rate now ≡ some b
    → IsWithin capacity rate b
unfolding create_token_bucket
created-IsWithin capacity rate now b h = ground (arith, h)

-- After any history of a bucket that was created, of which the last reading of the clock was at `t` or
-- before, the operations that follow up to `last`, with a clock that never goes back, spend no more
-- than the capacity and what `last - t'` refills, with `t'` the bucket's last reading.
pub spent_within :
    (capacity rate now t last : ℕ) (b : TokenBucket) (before es : List Event)
    → create_token_bucket capacity rate now ≡ some b
    → (after before b).last_refill_ms ≤ t
    → IsMonotone t es last
    → thousandths (spent es (after before b))
      ≤ thousandths capacity + (last - (after before b).last_refill_ms) * rate
spent_within capacity rate now t last b before es made read clock =
    let within =
      after-IsWithin capacity rate before b (created-IsWithin capacity rate now b made) in
    let bound = spent-budget t last es (after before b) read clock in ground (arith, within, bound)
