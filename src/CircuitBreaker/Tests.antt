-- ===== src/CircuitBreaker/Tests.antt =====
-- Runs of the circuit breaker at concrete inputs, and its theorems at inputs that meet their
-- hypotheses.
use boilerplate_express_ts.Prelude.{ℕ, ◌≤◌, ◌≡◌, refl, List, [], ◌∷◌, codes, replicate, arith}
use boilerplate_express_ts.Backoff.{full_jitter_delay}
use boilerplate_express_ts.CircuitBreaker.{
  CircuitBreaker, closed, half_open, success, failure, ignored, CircuitOptions, created, create,
  empty_bucket, Readings, acquire, count_outcome, close, totals, record_outcome, settle, trip,
}
use boilerplate_express_ts.CircuitBreaker.Episodes.{
  Event, reads, acquires, settles, run, step, start, live_probes, probe_budget,
}
use boilerplate_express_ts.CircuitBreaker.Window.{
  History, counts, closes, count_all, count_recent, totals-count_all,
}
use boilerplate_express_ts.CircuitBreaker.States.{Chain, changes-Chain, StaysOpen, run-StaysOpen}
use boilerplate_express_ts.CircuitBreaker.Trips.{WindowVerdict, record_outcome-WindowVerdict}
use boilerplate_express_ts.CircuitBreaker.Verdicts.{IsPause, settle-IsPause}

-- Trips at two failures out of two; ten slices of 100 ms; opens for 1000 ms with a fifth of jitter.
abbrev payments : CircuitOptions
payments = record {
  name = codes "payments";
  window_ms = 1000;
  bucket_count = 10;
  rate_num = 1;
  rate_den = 2;
  minimum_throughput = 2;
  open_ms = 1000;
  jitter_num = 1;
  jitter_den = 5;
  half_open_probes = 1;
  half_open_success_threshold = 1;
}

abbrev fresh : CircuitBreaker
fresh = record {
  options = payments;
  buckets = replicate 10 empty_bucket;
  current_state = closed;
  open_until = 0;
  probes_in_flight = 0;
  consecutive_probe_successes = 0;
  generation = 0;
  changes = [];
}

payments_built : create payments ≡ created fresh
unfolding create
payments_built = refl

abbrev at_time : ℕ → Readings
at_time n = record { bucket_now = n; totals_now = n; trip_now = n; at = n; random = 0 }

abbrev calls : List Event
calls = acquires 10 10 10 ∷ acquires 20 20 20 ∷ settles 0 failure (at_time 30) ∷ []

abbrev outage : List Event
outage =
    acquires 10 10 10
    ∷ acquires 20 20 20
    ∷ settles 0 failure (at_time 30)
    ∷ settles 1 failure (at_time 40)
    ∷ []

abbrev probing : List Event
probing =
    acquires 10 10 10
    ∷ acquires 20 20 20
    ∷ settles 0 failure (at_time 30)
    ∷ settles 1 failure (at_time 40)
    ∷ acquires 900 900 900
    ∷ acquires 901 901 901
    ∷ []

outage_deadline : (run (start fresh) outage).breaker.open_until ≡ 840
unfolding run step acquire settle totals trip full_jitter_delay
outage_deadline = refl

probe_budget_example :
    ((run (start fresh) probing).breaker.probes_in_flight
      ≡ live_probes
          (run (start fresh) probing).breaker.generation
          (run (start fresh) probing).permits)
    × (live_probes
          (run (start fresh) probing).breaker.generation
          (run (start fresh) probing).permits
        ≤ 1)
unfolding run step acquire settle totals trip full_jitter_delay
probe_budget_example = probe_budget payments fresh probing payments_built refl

changes-Chain_example :
    Chain
      (run (start fresh) probing).breaker.changes
      (run (start fresh) probing).breaker.current_state
changes-Chain_example = changes-Chain payments fresh probing payments_built

-- While the circuit is open a straggler settles, a call is refused and the state is read.
abbrev knocking : List Event
knocking = settles 0 success (at_time 50) ∷ acquires 60 60 60 ∷ reads 839 839 ∷ []

run-StaysOpen_example :
    StaysOpen (run (start fresh) outage) (run (run (start fresh) outage) knocking)
unfolding run step acquire settle totals trip full_jitter_delay
run-StaysOpen_example = run-StaysOpen knocking (run (start fresh) outage) refl (omega arith)

-- The circuit closes at 250 ms.
abbrev record_of_calls : History
record_of_calls =
    counts success 1250
    ∷ counts ignored 1200
    ∷ counts failure 1150
    ∷ counts failure 340
    ∷ closes 250
    ∷ counts failure 240
    ∷ counts failure 140
    ∷ []

-- Of the four failures one is no longer recent at 1300 ms, and two went when the circuit closed.
failures_at_1200 : (totals 1200 (count_all record_of_calls fresh)).1 ≡ 2
unfolding totals count_all count_outcome close
failures_at_1200 = refl

failures_at_1300 : (totals 1300 (count_all record_of_calls fresh)).1 ≡ 1
unfolding totals count_all count_outcome close
failures_at_1300 = refl

totals-count_all_example :
    ((totals 1299 (count_all record_of_calls fresh)).0
      ≡ count_recent payments success 1299 record_of_calls)
    × ((totals 1299 (count_all record_of_calls fresh)).1
        ≡ count_recent payments failure 1299 record_of_calls)
totals-count_all_example =
    totals-count_all payments fresh record_of_calls 1299 payments_built (omega arith)

abbrev probed : CircuitBreaker
probed = record fresh { current_state = half_open; generation = 3; probes_in_flight = 1 }

-- The second failure trips the circuit.
settle-IsPause_example :
    IsPause payments 40
      (step (run (start fresh) calls) (settles 1 failure (at_time 40))).breaker.open_until
unfolding run step acquire settle totals trip full_jitter_delay
settle-IsPause_example =
    settle-IsPause payments fresh calls 1 failure (at_time 40) payments_built (omega arith)
      (λ e. cc) refl

-- One more failure, at 1260 ms, makes three out of four.
record_outcome-WindowVerdict_example :
    WindowVerdict failure
      (count_all (counts failure 1260 ∷ record_of_calls) fresh)
      (1, 3)
      (record_outcome failure closed 0 (at_time 1260) (count_all record_of_calls fresh))
unfolding count_recent
record_outcome-WindowVerdict_example =
    record_outcome-WindowVerdict payments fresh record_of_calls failure 0 (at_time 1260)
      payments_built (omega arith)
