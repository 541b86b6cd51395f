-- ===== src/CircuitBreaker/Verdicts.antt =====
-- What a settled call does to the circuit (`record` in src/resilience/circuit-breaker.ts): a probe's
-- verdict, a straggler's, a closed circuit's, and the length of the pause after a trip.
use boilerplate_express_ts.Prelude.{
  ℕ, ◌+◌, ◌-◌, ◌*◌, ◌/◌, ◌≤◌, ◌<◌, ◌≡◌, ap, ◌∙◌, ◌≢◌, ◌⊎◌, List, arith,
}
use boilerplate_express_ts.Backoff.{unit, full_jitter_delay-lt-cap}
use boilerplate_express_ts.CircuitBreaker.{
  CircuitBreaker, CircuitState, closed, opened, half_open, CircuitOutcome, success, failure,
  ignored, CircuitOptions, created, create, count_outcome, totals, Readings, record_outcome,
  free_slot, decide, settle_probe, judge_window, trip, close, jitter_window, spread,
}
use boilerplate_express_ts.CircuitBreaker.Episodes.{
  Event, settles, step, run, start, settle_at_cases, count_outcome_lem, run-options, start-IsSound,
  create-options,
}

abbrev pub HasEmptyWindow : CircuitBreaker → Type 0
HasEmptyWindow b = (now : ℕ) → totals now b ≡ (0, 0)

-- What the probe of the current episode decides, by its outcome.
abbrev pub ProbeVerdict : CircuitOutcome → CircuitBreaker → CircuitBreaker → Type 0
ProbeVerdict failure b b' = (b'.current_state ≡ opened) × (b'.probes_in_flight ≡ 0)
ProbeVerdict ignored b b' =
    (b'.current_state ≡ half_open)
    × (b'.probes_in_flight ≡ b.probes_in_flight - 1)
    × (b'.consecutive_probe_successes ≡ b.consecutive_probe_successes)
ProbeVerdict success b b' =
    ((b.options.half_open_success_threshold ≤ b.consecutive_probe_successes + 1)
      × (b'.current_state ≡ closed)
      × HasEmptyWindow b')
    ⊎ ((b.consecutive_probe_successes + 1 < b.options.half_open_success_threshold)
        × (b'.current_state ≡ half_open)
        × (b'.probes_in_flight ≡ b.probes_in_flight - 1)
        × (b'.consecutive_probe_successes ≡ b.consecutive_probe_successes + 1))

-- `c` is `b` with the slot freed and the outcome counted.
abbrev IsCounted : CircuitBreaker → CircuitBreaker → Type 0
IsCounted b c =
    (c.options ≡ b.options)
    × (c.current_state ≡ b.current_state)
    × (c.probes_in_flight ≡ b.probes_in_flight - 1)
    × (c.consecutive_probe_successes ≡ b.consecutive_probe_successes)
    × (c.generation ≡ b.generation)

-- A straggler, a probe of an episode that has ended, decides nothing: whatever it reports, only the
-- buckets of the window may differ afterwards.
pub record_outcome_straggler :
    (o : CircuitOutcome) (t : Readings) (g : ℕ) (b : CircuitBreaker)
    → g ≢ b.generation
    → record_outcome o half_open g t b
      ≡ record b { buckets = (record_outcome o half_open g t b).buckets }
unfolding record_outcome decide
record_outcome_straggler o t g b old = ground (arith, count_outcome_lem o t.bucket_now b)

-- The pause that `trip` sets at `now`.
abbrev pub IsPause : CircuitOptions → ℕ → ℕ → Type 0
IsPause o now until = (now + (o.open_ms - jitter_window o) ≤ until) × (until ≤ now + o.open_ms)

spread-le : (o : CircuitOptions) (r : ℕ) → r < unit → spread o r ≤ jitter_window o
spread-le o r h = ground (arith, full_jitter_delay-lt-cap 1 (jitter_window o) (jitter_window o) r h)

scaled_le : (a n d : ℕ) → n < d → a * n / d ≤ a
scaled_le a n d h = grind arith

jitter_window-le : (o : CircuitOptions) → o.jitter_num < o.jitter_den → jitter_window o ≤ o.open_ms
jitter_window-le o h = scaled_le o.open_ms o.jitter_num o.jitter_den h

abbrev deadline : CircuitOptions → Readings → ℕ
deadline o t = t.trip_now + (o.open_ms - jitter_window o) + spread o t.random

settle_probe-deadline :
    (o : CircuitOutcome) (t : Readings) (b : CircuitBreaker)
    → b.current_state ≡ half_open
    → (settle_probe o t b).current_state ≡ opened
    → (settle_probe o t b).open_until ≡ deadline b.options t
unfolding settle_probe trip close
settle_probe-deadline success t b h k = ground arith
settle_probe-deadline _ t b h k = ground arith

judge_window-deadline :
    (t : Readings) (b : CircuitBreaker)
    → b.current_state ≡ closed
    → (judge_window t b).current_state ≡ opened
    → (judge_window t b).open_until ≡ deadline b.options t
unfolding judge_window trip
judge_window-deadline t b h k = ground arith

decide-deadline :
    (o : CircuitOutcome) (iss : CircuitState) (g : ℕ) (t : Readings) (b : CircuitBreaker)
    → b.current_state ≢ opened
    → (decide o iss g t b).current_state ≡ opened
    → (decide o iss g t b).open_until ≡ deadline b.options t
unfolding decide
decide-deadline o iss g t b h k =
    ground (arith, settle_probe-deadline o t b, judge_window-deadline t b)

record_outcome-deadline :
    (o : CircuitOutcome) (iss : CircuitState) (g : ℕ) (t : Readings) (b : CircuitBreaker)
    → b.current_state ≢ opened
    → (record_outcome o iss g t b).current_state ≡ opened
    → (record_outcome o iss g t b).open_until ≡ deadline b.options t
unfolding record_outcome
record_outcome-deadline o iss g t b h k =
    let freed = free_slot iss g b in
    let lem = count_outcome_lem o t.bucket_now freed in
    ground (
      arith,
      ap (λ (c : CircuitBreaker). c.options) lem,
      ap (λ (c : CircuitBreaker). c.current_state) lem,
      decide-deadline o iss g t (count_outcome o t.bucket_now freed),
    )

create-jitter :
    (o : CircuitOptions) (b : CircuitBreaker) → create o ≡ created b → o.jitter_num < o.jitter_den
unfolding create
create-jitter o b h = ground arith

-- A settlement that opens the circuit, after any history, sets a deadline between
-- `openMs - floor(openMs * openJitterRatio)` and `openMs` from the reading of the clock in `trip`.
pub settle-IsPause :
    (o : CircuitOptions) (b : CircuitBreaker) (es : List Event)
    → (i : ℕ) (outcome : CircuitOutcome) (t : Readings) → create o ≡ created b
    → t.random < unit
    → (run (start b) es).breaker.current_state ≢ opened
    → (step (run (start b) es) (settles i outcome t)).breaker.current_state ≡ opened
    → IsPause o t.trip_now (step (run (start b) es) (settles i outcome t)).breaker.open_until
unfolding step
settle-IsPause o b es i outcome t built fair shut =
    let s = run (start b) es in
    let kept : s.breaker.options ≡ o =
      run-options es (start b) (start-IsSound o built) ∙ create-options o b built in
    settle_at_cases
      (λ u. u.breaker.current_state ≡ opened → IsPause o t.trip_now u.breaker.open_until) i outcome
      t s (λ k. absurd (shut k))
      (λ p e fresh k.
        let set =
          record_outcome-deadline outcome p.issued_in p.generation t s.breaker shut k
          ∙ ap (λ (q : CircuitOptions). deadline q t) kept in
        rw set
          (omega (arith, spread-le o t.random fair, jitter_window-le o (create-jitter o b built))))
