-- ===== src/CircuitBreaker.antt =====
-- src/resilience/circuit-breaker.ts. A call of `now()` is an argument of the operation that makes
-- it, one for each reading, and so is `random()` (see Backoff). The threshold and the jitter ratio
-- are fractions. A bucket's `epoch` is the source's plus one, so that its -1 is 0 here. The calls
-- of `onStateChange` are kept in `changes`, newest first.
pub mod Episodes
pub mod Window
pub mod States
pub mod Trips
pub mod Verdicts
mod Tests
use boilerplate_express_ts.Prelude.{
  ℕ, suc, ◌+◌, ◌-◌, ◌*◌, ◌/◌, ◌%◌, max, Bool, true, false, not, ◌&&◌, ◌||◌, Option, none, some,
  List, [], ◌∷◌, ltb, leb, ◌==◌, if◌then◌else◌, set, get_elem?, replicate, Text,
}
use boilerplate_express_ts.Backoff.{full_jitter_delay}

pub data CircuitState : Type 0 where
  closed opened half_open : CircuitState

abbrev pub same_state : CircuitState → CircuitState → Bool
same_state closed closed = true
same_state opened opened = true
same_state half_open half_open = true
same_state _ _ = false

pub data CircuitOutcome : Type 0 where
  success failure ignored : CircuitOutcome

pub record CircuitOptions : Type 0 where
  pub name : Text
  pub window_ms : ℕ
  pub bucket_count : ℕ
  pub rate_num : ℕ
  pub rate_den : ℕ
  pub minimum_throughput : ℕ
  pub open_ms : ℕ
  pub jitter_num : ℕ
  pub jitter_den : ℕ
  pub half_open_probes : ℕ
  pub half_open_success_threshold : ℕ

pub record Bucket : Type 0 where
  pub epoch : ℕ
  pub successes : ℕ
  pub failures : ℕ

abbrev pub empty_bucket : Bucket
empty_bucket = record { epoch = 0; successes = 0; failures = 0 }

pub record CircuitStateChange : Type 0 where
  pub from : CircuitState
  pub to : CircuitState
  pub at : ℕ
  pub failure_rate : Option (ℕ × ℕ)

pub record CircuitBreaker : Type 0 where
  pub options : CircuitOptions
  pub buckets : List Bucket
  pub current_state : CircuitState
  pub open_until : ℕ
  pub probes_in_flight : ℕ
  pub consecutive_probe_successes : ℕ
  pub generation : ℕ
  pub changes : List CircuitStateChange

-- The field that a `RangeError` of the constructor names.
pub data BadOption : Type 0 where
  window_ms bucket_count open_ms half_open_probes half_open_success_threshold : BadOption
  minimum_throughput failure_rate_threshold open_jitter_ratio window_too_short : BadOption

pub data Created : Type 0 where
  created : CircuitBreaker → Created
  range_error : BadOption → Created

-- The constructor, with its checks in the source's order.
unfoldable pub create : CircuitOptions → Created
create o =
    if o.window_ms == 0
    then range_error window_ms
    else if o.bucket_count == 0
    then range_error bucket_count
    else if o.open_ms == 0
    then range_error open_ms
    else if o.half_open_probes == 0
    then range_error half_open_probes
    else if o.half_open_success_threshold == 0
    then range_error half_open_success_threshold
    else if o.minimum_throughput == 0
    then range_error minimum_throughput
    else if o.rate_num == 0 || ltb o.rate_den o.rate_num
    then range_error failure_rate_threshold
    else if leb o.jitter_den o.jitter_num
    then range_error open_jitter_ratio
    else if ltb o.window_ms o.bucket_count
    then range_error window_too_short
    else created (record {
      options = o;
      buckets = replicate o.bucket_count empty_bucket;
      current_state = closed;
      open_until = 0;
      probes_in_flight = 0;
      consecutive_probe_successes = 0;
      generation = 0;
      changes = [];
    })

abbrev pub bucket_ms : CircuitOptions → ℕ
bucket_ms o = o.window_ms / o.bucket_count

unfoldable pub transition_to : CircuitState → Option (ℕ × ℕ) → ℕ → CircuitBreaker → CircuitBreaker
transition_to next rate at b =
    let entered : CircuitBreaker =
      if same_state next half_open
      then record b {
        generation = b.generation + 1;
        probes_in_flight = 0;
        consecutive_probe_successes = 0;
      }
      else b in
    if same_state b.current_state next then b else record entered {
      current_state = next;
      changes =
          record { from = b.current_state; to = next; at = at; failure_rate = rate } ∷ b.changes;
    }

-- The getter `state`: it runs the expiry check, and may move the breaker to half-open.
unfoldable pub observe : ℕ → ℕ → CircuitBreaker → CircuitBreaker
unfolding transition_to
observe now at b =
    if same_state b.current_state opened && leb b.open_until now
    then transition_to half_open none at b
    else b

pub record CircuitPermit : Type 0 where
  pub issued_in : CircuitState
  pub generation : ℕ
  pub settled : Bool

-- `rejected` carries `retryAfterMs`; the subtraction stops at 0 should the clock pass `openUntil`
-- between two readings.
pub data Acquired : Type 0 where
  granted : CircuitPermit → Acquired
  rejected : ℕ → Acquired

-- The header `Retry-After` of a `CircuitOpenError`, in seconds.
pub retry_after : ℕ → ℕ
retry_after retry_after_ms = max 1 ((retry_after_ms + 999) / 1000)

abbrev pub half_open_retry_after_ms : ℕ
half_open_retry_after_ms = 1000

admit : ℕ → CircuitBreaker → CircuitBreaker × Acquired
admit later b = elim b.current_state [
  | opened ↦ (b, rejected (b.open_until - later))
  | half_open ↦
      if leb b.options.half_open_probes b.probes_in_flight
      then (b, rejected half_open_retry_after_ms)
      else (
        record b { probes_in_flight = b.probes_in_flight + 1 },
        granted (record { issued_in = half_open; generation = b.generation; settled = false }),
      )
  | closed ↦
      (b, granted (record { issued_in = closed; generation = b.generation; settled = false }))
]

unfoldable pub acquire : ℕ → ℕ → ℕ → CircuitBreaker → CircuitBreaker × Acquired
unfolding admit observe
acquire now at later b = admit later (observe now at b)

-- The readings of one `record`: for the bucket, for the totals, in `trip`, and for the change.
pub record Readings : Type 0 where
  pub bucket_now : ℕ
  pub totals_now : ℕ
  pub trip_now : ℕ
  pub at : ℕ
  pub random : ℕ

-- A bucket that holds an earlier lap is reset.
abbrev pub seat : ℕ → Option Bucket → Bucket
seat epoch none = record { epoch = epoch; successes = 0; failures = 0 }
seat epoch (some k) =
    if k.epoch == epoch then k else record { epoch = epoch; successes = 0; failures = 0 }

abbrev pub tally : CircuitOutcome → Bucket → Bucket
tally success k = record k { successes = k.successes + 1 }
tally failure k = record k { failures = k.failures + 1 }
tally ignored k = k

abbrev pub epoch_at : CircuitOptions → ℕ → ℕ
epoch_at o now = now / bucket_ms o

-- `currentBucket` and the increment that follows it.
unfoldable pub count_outcome : CircuitOutcome → ℕ → CircuitBreaker → CircuitBreaker
count_outcome ignored now b = b
count_outcome outcome now b =
    let epoch = epoch_at b.options now in
    let index = epoch % b.options.bucket_count in
    record b {
      buckets = set b.buckets index (tally outcome (seat (suc epoch) (get_elem? b.buckets index)));
    }

-- `bucket.epoch < oldestEpoch`, with both sides moved up past zero.
abbrev pub is_stale : CircuitOptions → ℕ → Bucket → Bool
is_stale o now k = ltb (k.epoch + o.bucket_count) (epoch_at o now + 2)

unfoldable pub totals_of : CircuitOptions → ℕ → List Bucket → ℕ × ℕ
totals_of o now [] = (0, 0)
totals_of o now (k ∷ ks) =
    let rest = totals_of o now ks in
    if is_stale o now k then rest else (k.successes + rest.0, k.failures + rest.1)

unfoldable pub totals : ℕ → CircuitBreaker → ℕ × ℕ
unfolding totals_of
totals now b = totals_of b.options now b.buckets

abbrev pub jitter_window : CircuitOptions → ℕ
jitter_window o = o.open_ms * o.jitter_num / o.jitter_den

abbrev pub spread : CircuitOptions → ℕ → ℕ
spread o random = let w = jitter_window o in if ltb 0 w then full_jitter_delay 1 w w random else 0

unfoldable pub trip : Option (ℕ × ℕ) → Readings → CircuitBreaker → CircuitBreaker
unfolding transition_to
trip rate t b = transition_to opened rate t.at (record b {
  open_until =
      t.trip_now + (b.options.open_ms - jitter_window b.options) + spread b.options t.random;
  probes_in_flight = 0;
  consecutive_probe_successes = 0;
})

abbrev pub cleared : List Bucket → List Bucket
cleared [] = []
cleared (k ∷ ks) = empty_bucket ∷ cleared ks

unfoldable pub close : ℕ → CircuitBreaker → CircuitBreaker
unfolding transition_to
close at b =
    transition_to closed none at
      (record b { buckets = cleared b.buckets; consecutive_probe_successes = 0 })

-- `failures / total >= failureRateThreshold` once the throughput is reached.
abbrev pub over_threshold : CircuitOptions → ℕ × ℕ → Bool
over_threshold o (s, f) =
    leb o.minimum_throughput (s + f) && leb (o.rate_num * (s + f)) (f * o.rate_den)

-- The part of `record` for an outcome that meets the breaker half-open.
settle_probe : CircuitOutcome → Readings → CircuitBreaker → CircuitBreaker
settle_probe failure t b = trip none t (record b { consecutive_probe_successes = 0 })
settle_probe success t b =
    let proved = record b { consecutive_probe_successes = b.consecutive_probe_successes + 1 } in
    if leb b.options.half_open_success_threshold proved.consecutive_probe_successes
    then close t.at proved
    else proved
settle_probe ignored t b = b

-- The part of `record` for a failure that meets the breaker closed.
judge_window : Readings → CircuitBreaker → CircuitBreaker
judge_window t b =
    let seen = totals t.totals_now b in
    if over_threshold b.options seen then trip (some (seen.1, seen.0 + seen.1)) t b else b

abbrev pub is_current_probe : CircuitState → ℕ → CircuitBreaker → Bool
is_current_probe issued_in generation b =
    same_state issued_in half_open && (generation == b.generation)

abbrev pub is_failure : CircuitOutcome → Bool
is_failure failure = true
is_failure _ = false

abbrev pub free_slot : CircuitState → ℕ → CircuitBreaker → CircuitBreaker
free_slot issued_in generation b =
    if is_current_probe issued_in generation b
    then record b { probes_in_flight = b.probes_in_flight - 1 }
    else b

-- `record` after the slot is freed and the outcome is counted.
decide : CircuitOutcome → CircuitState → ℕ → Readings → CircuitBreaker → CircuitBreaker
unfolding settle_probe judge_window
decide outcome issued_in generation t b =
    if same_state issued_in half_open && not (generation == b.generation)
    then b
    else if same_state b.current_state half_open && same_state issued_in half_open
    then settle_probe outcome t b
    else if not (same_state b.current_state closed) || not (is_failure outcome)
    then b
    else judge_window t b

pub record_outcome : CircuitOutcome → CircuitState → ℕ → Readings → CircuitBreaker → CircuitBreaker
unfolding decide count_outcome
record_outcome outcome issued_in generation t b =
    decide outcome issued_in generation t
      (count_outcome outcome t.bucket_now (free_slot issued_in generation b))

-- A permit's `succeed`, `fail` and `ignore`. `none` is the error of a second settlement.
unfoldable pub settle :
    CircuitOutcome
    → Readings
    → CircuitPermit
    → CircuitBreaker
    → Option (CircuitPermit × CircuitBreaker)
unfolding record_outcome
settle outcome t p b =
    if p.settled
    then none
    else some (record p { settled = true }, record_outcome outcome p.issued_in p.generation t b)

pub record CircuitStats : Type 0 where
  pub state : CircuitState
  pub successes : ℕ
  pub failures : ℕ
  pub failure_rate : ℕ × ℕ
  pub probes_in_flight : ℕ

-- The totals are read before the getter `state` runs, and the probe count after it.
unfoldable pub stats : ℕ → ℕ → ℕ → CircuitBreaker → CircuitBreaker × CircuitStats
unfolding totals observe
stats totals_now now at b =
    let seen = totals totals_now b in
    let total = seen.0 + seen.1 in
    let b' = observe now at b in
    (
      b',
      record {
        state = b'.current_state;
        successes = seen.0;
        failures = seen.1;
        failure_rate = if total == 0 then (0, 1) else (seen.1, total);
        probes_in_flight = b'.probes_in_flight;
      },
    )
