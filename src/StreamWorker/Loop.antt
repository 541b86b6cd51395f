-- ===== src/StreamWorker/Loop.antt =====
-- src/redis/stream.worker.ts: the loop of a worker, its start and its stop. A stop falls between two ticks,
-- since it waits for the one in flight. The pause after a tick that failed is kept as a number.
use boilerplate_express_ts.Prelude.{
  ℕ, zero, suc, ◌+◌, Bool, true, false, Option, none, some, List, [], ◌∷◌, leb, if◌then◌else◌,
}
use boilerplate_express_ts.Backoff.{full_jitter_delay}
use boilerplate_express_ts.StreamWorker.{
  Failure, no_group, other, Reply, ok, error, StreamCommands, Callbacks, StreamTickOutcome,
  ResolvedOptions, Work, Action, pure, ◌>>◌, call,
}
use boilerplate_express_ts.StreamWorker.Ticks.{run_stream_tick, ensure_group}

-- The promise `loop`: a loop has its number of consecutive failures.
pub data LoopState : Type 0 where
  no_loop : LoopState
  looping : ℕ → LoopState
  rejected : Failure → LoopState

pub record WorkerState : Type 0 where
  pub running : Bool
  pub loop : LoopState
  pub last_reclaim_at : Option ℕ
  pub pause_ms : ℕ

abbrev pub new_worker : WorkerState
new_worker = record { running = false; loop = no_loop; last_reclaim_at = none; pause_ms = 0 }

-- `now - lastReclaimAt >= reclaimIntervalMs`, where `none` is `-Infinity`.
abbrev pub is_reclaim_due : ℕ → ℕ → Option ℕ → Bool
is_reclaim_due interval_ms now none = true
is_reclaim_due interval_ms now (some last) = leb (last + interval_ms) now

-- What happens to a worker: `now` and `random` are the readings of a turn.
pub data Event : Type 0 where
  starts stops : Event
  turns : ℕ → ℕ → Event
  runs_once : Bool → Event

module _ {S V : Type 0} (commands : StreamCommands S) (host : Callbacks S V)
    (options : ResolvedOptions) where
  -- The answer to a tick that ended: whether it was completed.
  unfoldable pub recover : Reply StreamTickOutcome → Action S Bool
  unfolding ensure_group
  recover (ok outcome) = pure true
  recover (error no_group) = do ensure_group commands host options; pure false
  recover (error (other message)) = pure false

  unfoldable pub tick : Bool → Action S Bool
  unfolding recover run_stream_tick
  tick should_reclaim w =
      let (next, reply) = run_stream_tick commands host options should_reclaim w in
      recover reply next

  -- What the loop makes of a tick: the pause is drawn after a failure.
  unfoldable pub after_tick : ℕ → ℕ → Reply Bool → WorkerState → WorkerState
  after_tick failures random (ok true) worker = record worker { loop = looping 0; pause_ms = 0 }
  after_tick failures random (ok false) worker = record worker {
    loop = looping (suc failures);
    pause_ms =
        full_jitter_delay (suc failures) options.error_backoff_ms options.max_error_backoff_ms
          random;
  }
  after_tick failures random (error e) worker = record worker { loop = rejected e }

  -- One turn of the loop, and its pause.
  unfoldable pub turn_from : LoopState → ℕ → ℕ → WorkerState → Work S → WorkerState × Work S
  unfolding tick after_tick
  turn_from no_loop now random worker w = (worker, w)
  turn_from (rejected e) now random worker w = (worker, w)
  turn_from (looping failures) now random worker w =
      let due = is_reclaim_due options.reclaim_interval_ms now worker.last_reclaim_at in
      let (next, reply) = tick due w in
      let kept : WorkerState = record worker {
        last_reclaim_at = if due then some now else worker.last_reclaim_at;
      } in
      (after_tick failures random reply kept, next)

  unfoldable pub turn : ℕ → ℕ → WorkerState → Work S → WorkerState × Work S
  unfolding turn_from
  turn now random worker w = turn_from worker.loop now random worker w

  -- `start`: a group that cannot be made rejects, and no loop is begun.
  unfoldable pub start : WorkerState → Work S → WorkerState × Work S
  unfolding ensure_group
  start worker w =
      let (next, reply) = ensure_group commands host options w in
      if worker.running then (worker, w) else (
        elim reply [
          | ok _ ↦ record worker { running = true; loop = looping 0 }
          | error e ↦ record worker { running = true }
        ],
        next,
      )

  -- The end of `stop`, which throws nothing.
  unfoldable pub retire : Reply ℕ → Work S → Work S
  retire (error e) w = w
  retire (ok zero) w =
      (call (commands.delete_consumer options.key options.group options.consumer) w).0
  retire (ok (suc n)) w = w

  -- `stop` once `loop` is awaited: a loop that was rejected makes it throw.
  unfoldable pub stop_from : LoopState → WorkerState → Work S → WorkerState × Work S
  unfolding retire
  stop_from (rejected e) worker w = (worker, w)
  stop_from _ worker w =
      let (next, reply) =
        call (commands.consumer_pending_count options.key options.group options.consumer) w in
      (record worker { running = false; loop = no_loop }, retire reply next)

  unfoldable pub stop : WorkerState → Work S → WorkerState × Work S
  unfolding stop_from
  stop worker w =
      let stopped = stop_from worker.loop worker w in
      if worker.running then stopped else (worker, w)

  unfoldable pub step : WorkerState × Work S → Event → WorkerState × Work S
  unfolding start stop turn run_stream_tick
  step (worker, w) starts = start worker w
  step (worker, w) stops = stop worker w
  step (worker, w) (turns now random) = turn now random worker w
  step (worker, w) (runs_once should_reclaim) =
      (worker, (run_stream_tick commands host options should_reclaim w).0)

  unfoldable pub run : List Event → WorkerState × Work S → WorkerState × Work S
  unfolding step
  run [] state = state
  run (e ∷ es) state = run es (step state e)
