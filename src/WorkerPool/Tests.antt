-- ===== src/WorkerPool/Tests.antt =====
-- Runs of the worker pool at concrete inputs.
use boilerplate_express_ts.Prelude.{
  ℕ, ◌≡◌, ◌+◌, ◌≤◌, ◌⊎◌, refl, true, false, some, List, [], ◌∷◌, length, count,
}
use boilerplate_express_ts.WorkerPool.{
  WorkerPool, QueuedTask, create, opened, not_asked, is_closed, busy, current_of, queued_callers,
  busy_callers, acquire_worker, settle_drain_if_idle, retire, release, dispatch, pump_step,
  pump_round, pump_for, pump, place, run, reply, on_message, expire, on_timeout, lose,
  on_worker_failure, begin_draining, drain, resolve_drained, on_destroyed, set_current, remove,
  splice,
}
use boilerplate_express_ts.WorkerPool.Histories.{
  Event, runs, replies, expires, fails, drains, destroyed, step, after,
}
use boilerplate_express_ts.WorkerPool.Accounts.{answered_callers}
use boilerplate_express_ts.WorkerPool.Calls.{calls}
use boilerplate_express_ts.WorkerPool.Promises.{waiting_means_full, calls-answers}
use boilerplate_express_ts.WorkerPool.Drains.{left}
use boilerplate_express_ts.WorkerPool.Closing.{EndsWithin, timers_close}

-- One worker, and a queue of two tasks.
abbrev small : WorkerPool ℕ
small = record {
  size = 1;
  max_queue_depth = 2;
  workers = [];
  idle = [];
  queue = [];
  state = opened;
  next_task_id = 1;
  next_name = 0;
  drained = not_asked;
  answers = [];
}

small_built : create {V = ℕ} 1 2 ≡ some small
unfolding create
small_built = refl

abbrev task : ℕ → QueuedTask
task c = record { caller = c; timeout_ms = 50; cloneable = true }

abbrev stuck : ℕ → QueuedTask
stuck c = record { caller = c; timeout_ms = 50; cloneable = false }

-- Caller 1 is at work, 2 and 3 wait, 4 is refused; 1 is answered, and 2's payload is not cloneable.
abbrev rush : List (Event ℕ)
rush = runs (task 1) ∷ runs (stuck 2) ∷ runs (task 3) ∷ runs (task 4) ∷ replies 0 1 true 7 ∷ []

abbrev closing : List (Event ℕ)
closing = runs (task 1) ∷ runs (task 2) ∷ drains ∷ runs (task 5) ∷ []

-- The timer of 1 retires worker 0, and 2 starts on worker 1, which exits.
abbrev ending : List (Event ℕ)
ending = runs (task 1) ∷ runs (task 2) ∷ drains ∷ expires 0 1 ∷ fails 1 ∷ destroyed ∷ []

rush_answers : answered_callers (after small rush).answers ≡ 4 ∷ 1 ∷ 2 ∷ []
unfolding after step run place acquire_worker settle_drain_if_idle retire release dispatch pump_step
    pump_round pump_for pump reply on_message set_current current_of
rush_answers = refl

rush_work : busy_callers (busy (after small rush).workers) ≡ 3 ∷ []
unfolding after step run place acquire_worker settle_drain_if_idle retire release dispatch pump_step
    pump_round pump_for pump reply on_message set_current current_of
rush_work = refl

closing_not_open : (after small closing).queue ≡ task 2 ∷ []
unfolding after step run place acquire_worker settle_drain_if_idle retire release dispatch pump_step
    pump_round pump_for pump reply on_message set_current current_of begin_draining drain
closing_not_open = refl

ending_shut : is_closed (after small ending).state ≡ true
unfolding after step run place acquire_worker settle_drain_if_idle retire release dispatch pump_step
    pump_round pump_for pump expire on_timeout set_current current_of remove splice lose
    on_worker_failure begin_draining drain resolve_drained on_destroyed
ending_shut = refl

waiting_means_full_example :
    (length (after small rush).workers ≤ (after small rush).size)
    × (length (after small rush).queue ≤ (after small rush).max_queue_depth)
    × (((after small rush).queue ≡ [])
        ⊎ (is_closed (after small rush).state ≡ true)
        ⊎ (length (busy (after small rush).workers) ≡ (after small rush).size))
waiting_means_full_example = waiting_means_full 1 2 small small_built rush

calls-answers_example :
    count 2 (answered_callers (after small rush).answers)
      + (count 2 (queued_callers (after small rush).queue)
          + count 2 (busy_callers (busy (after small rush).workers)))
    ≡ calls 2 rush
calls-answers_example = calls-answers 1 2 small small_built rush 2

timers_close_example : EndsWithin (left (after small closing)) (after small closing)
unfolding after step run place acquire_worker settle_drain_if_idle retire release dispatch pump_step
    pump_round pump_for pump set_current current_of begin_draining drain
timers_close_example = timers_close 1 2 small small_built closing refl
