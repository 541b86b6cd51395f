-- ===== src/CircuitBreaker/Trips.antt =====
-- The trip of src/resilience/circuit-breaker.ts, in terms of the outcomes that were recorded.
use boilerplate_express_ts.Prelude.{
  ℕ, ◌+◌, ◌*◌, ◌≤◌, ◌<◌, ◌≡◌, ◌≢◌, ◌⊎◌, subst, inl, inr, ap, ◌∙◌, arith, [], ◌∷◌,
}
use boilerplate_express_ts.CircuitBreaker.{
  CircuitBreaker, closed, opened, CircuitOutcome, success, failure, ignored, CircuitOptions,
  created, create, Readings, count_outcome, close, totals, judge_window, decide, record_outcome,
  trip,
}
use boilerplate_express_ts.CircuitBreaker.Window.{
  History, counts, closes, count_all, count_recent, IsOrdered, totals-count_all,
}
use boilerplate_express_ts.CircuitBreaker.Episodes.{count_outcome_lem}

-- What a call admitted by a closed circuit decides; `c` is the breaker with the outcome counted, `s`
-- the successes of its window and `f` the failures.
abbrev pub WindowVerdict : CircuitOutcome → CircuitBreaker → ℕ × ℕ → CircuitBreaker → Type 0
WindowVerdict o c (s, f) b' =
    ((o ≡ failure)
      × (c.options.minimum_throughput ≤ s + f)
      × (c.options.rate_num * (s + f) ≤ f * c.options.rate_den)
      × (b'.current_state ≡ opened))
    ⊎ (((o ≢ failure)
          ⊎ (s + f < c.options.minimum_throughput)
          ⊎ (f * c.options.rate_den < c.options.rate_num * (s + f)))
        × (b' ≡ c))

judge_window-WindowVerdict :
    (t : Readings) (c : CircuitBreaker)
    → c.current_state ≡ closed
    → WindowVerdict failure c (totals t.totals_now c) (judge_window t c)
unfolding judge_window trip
judge_window-WindowVerdict t c h = ground arith

decide-WindowVerdict :
    (o : CircuitOutcome) (t : Readings) (g : ℕ) (c : CircuitBreaker)
    → c.current_state ≡ closed
    → WindowVerdict o c (totals t.totals_now c) (decide o closed g t c)
unfolding decide
decide-WindowVerdict failure t g c h =
    let same : decide failure closed g t c ≡ judge_window t c = ground arith in
    rw same (judge_window-WindowVerdict t c h)
decide-WindowVerdict success t g c h = inr (inl (λ e. cc), ground arith)
decide-WindowVerdict ignored t g c h = inr (inl (λ e. cc), ground arith)

count_outcome-state :
    (o : CircuitOutcome) (now : ℕ) (b : CircuitBreaker)
    → (count_outcome o now b).current_state ≡ b.current_state
count_outcome-state o now b =
    ap (λ (c : CircuitBreaker). c.current_state) (count_outcome_lem o now b)

closed_verdict :
    (o : CircuitOutcome) (t : Readings) (g : ℕ) (b : CircuitBreaker)
    → b.current_state ≡ closed
    → let c = count_outcome o t.bucket_now b in
      WindowVerdict o c (totals t.totals_now c) (record_outcome o closed g t b)
unfolding record_outcome
closed_verdict o t g b h =
    decide-WindowVerdict o t g (count_outcome o t.bucket_now b)
      (count_outcome-state o t.bucket_now b ∙ h)

close-state : (t : ℕ) (b : CircuitBreaker) → (close t b).current_state ≡ closed
unfolding close
close-state t b = ground (arith)

count_all-state :
    (h : History) (b : CircuitBreaker)
    → b.current_state ≡ closed
    → (count_all h b).current_state ≡ closed
unfolding count_all
count_all-state [] b e = e
count_all-state (counts outcome t ∷ h) b e =
    count_outcome-state outcome t (count_all h b) ∙ count_all-state h b e
count_all-state (closes t ∷ h) b e = close-state t (count_all h b)

-- A new breaker has counted outcomes and closed, in any order, and a call that it admitted while closed
-- now settles, at readings of the clock that do not fall. The circuit opens exactly when the call failed
-- and the outcomes counted since it last closed and in the last `bucketCount` slices, this one included,
-- are `minimumThroughput` or more with the failures among them at the threshold or above. Otherwise the
-- call is counted and nothing else changes.
pub record_outcome-WindowVerdict :
    (o : CircuitOptions) (b : CircuitBreaker) (h : History) (outcome : CircuitOutcome) (g : ℕ)
    (t : Readings)
    → create o ≡ created b
    → IsOrdered t.totals_now (counts outcome t.bucket_now ∷ h)
    → WindowVerdict outcome
        (count_all (counts outcome t.bucket_now ∷ h) b)
        (
          count_recent o success t.totals_now (counts outcome t.bucket_now ∷ h),
          count_recent o failure t.totals_now (counts outcome t.bucket_now ∷ h),
        )
        (record_outcome outcome closed g t (count_all h b))
unfolding count_all create
record_outcome-WindowVerdict o b h outcome g t built ord =
    let all = counts outcome t.bucket_now ∷ h in
    let (s, f) = totals-count_all o b all t.totals_now built ord in
    let shut : b.current_state ≡ closed = ground (arith, built) in
    let verdict = closed_verdict outcome t g (count_all h b) (count_all-state h b shut) in
    let seen = totals t.totals_now (count_all all b) in
    let same : seen
        ≡ (count_recent o success t.totals_now all, count_recent o failure t.totals_now all) =
      ground (arith, s, f) in
    subst
      (λ p.
        WindowVerdict outcome (count_all all b) p
          (record_outcome outcome closed g t (count_all h b)))
      same verdict
