-- ===== src/Bulkhead/Tests.antt =====
-- Runs of the bulkhead at concrete inputs.
use boilerplate_express_ts.Prelude.{◌≡◌, refl, false, some, List, [], ◌∷◌, map, codes}
use boilerplate_express_ts.Bulkhead.{
  Bulkhead, BulkheadOptions, created, create, acquire, leave, time_out, release, stats, ended,
  with_bulkhead,
}
use boilerplate_express_ts.Bulkhead.Slots.{
  Event, acquires, times_out, releases, run, step, start, IsSound, run-start-IsSound,
}
use boilerplate_express_ts.Bulkhead.Order.{
  IsAccounted, run-start-IsAccounted, IsFifo, run-start-IsFifo, callers,
}

abbrev billing : BulkheadOptions
billing = record {
  name = codes "billing";
  max_concurrent = 1;
  max_queue = 2;
  queue_timeout_ms = 50;
}

abbrev empty : Bulkhead
empty = record { options = billing; waiters = []; in_flight = 0 }

billing_built : create billing ≡ created empty
unfolding create
billing_built = refl

-- Caller 1 holds the slot, 2 and 3 wait, 4 is refused; 2 times out, and 1 releases twice.
abbrev rush : List Event
rush =
    acquires 1 false 0
    ∷ acquires 2 false 1
    ∷ acquires 3 false 2
    ∷ acquires 4 false 3
    ∷ times_out 2 51
    ∷ releases 0
    ∷ releases 1
    ∷ []

rush_answers : map (λ p. p.0) (run (start empty) rush).answers ≡ 3 ∷ 2 ∷ 4 ∷ 1 ∷ []
unfolding run step acquire leave time_out release
rush_answers = refl

rush_queue : callers (run (start empty) rush).bulkhead.waiters ≡ []
unfolding run step acquire leave time_out release
rush_queue = refl

run-start-IsSound_example : IsSound billing (run (start empty) rush)
run-start-IsSound_example = run-start-IsSound billing empty rush billing_built

run-start-IsAccounted_example : IsAccounted 2 (run (start empty) rush)
run-start-IsAccounted_example = run-start-IsAccounted empty rush 2 refl

run-start-IsFifo_example : IsFifo (run (start empty) rush)
run-start-IsFifo_example = run-start-IsFifo empty rush refl

-- Under a slot another caller is queued, and is handed the slot.
guarded_call : with_bulkhead 1 false 0 (λ b. ((acquire 2 false 5 b).0, codes "ok")) empty ≡ (
  record empty { in_flight = 1 },
  ended (codes "ok") (some (record { caller = 2; queued_at = 5 })),
)
unfolding with_bulkhead acquire
guarded_call = refl

stats_at_rest :
    stats empty ≡ record { in_flight = 0; queued = 0; max_concurrent = 1; max_queue = 2 }
unfolding stats
stats_at_rest = refl
