-- ===== src/StreamWorker/Runs.antt =====
-- src/redis/stream.worker.ts: the entries that a worker was handed, over its life.
use boilerplate_express_ts.Prelude.{
  ℕ, zero, suc, ◌≡◌, refl, inl, inr, Bool, true, false, List, [], ◌∷◌, Text, Bool-cases,
}
use boilerplate_express_ts.StreamWorker.{
  no_group, other, Reply, ok, error, StreamCommands, Callbacks, StreamTickOutcome, ResolvedOptions,
  Work, pure,
}
use boilerplate_express_ts.StreamWorker.Ticks.{run_stream_tick, ensure_group}
use boilerplate_express_ts.StreamWorker.Triples.{Ensures, Any, bind-Ensures}
use boilerplate_express_ts.StreamWorker.Laws.{KeepsPending, LeavesPending, IsAccounted}
use boilerplate_express_ts.StreamWorker.Accounts
use boilerplate_express_ts.StreamWorker.Passes
use boilerplate_express_ts.StreamWorker.Loop.{
  LoopState, no_loop, looping, rejected, WorkerState, is_reclaim_due, recover, tick, turn_from,
  turn, start, retire, stop_from, stop, Event, starts, stops, turns, runs_once, step, run,
}

module _ {S V : Type 0} (commands : StreamCommands S) (host : Callbacks S V)
    (options : ResolvedOptions) (Kept : Text → Text → Text → S → Type 0)
    (laws : KeepsPending commands Kept) (leaves : LeavesPending host Kept) where
  abbrev Pending : Text → S → Type 0
  Pending = Kept options.key options.group

  abbrev Safe : Work S → Type 0
  Safe = IsAccounted Pending

  abbrev Always : Work S → Type 0
  Always w = Unit

  run_stream_tick-Ensures :
      (due : Bool) → Ensures Safe Always (run_stream_tick commands host options due) (Any Safe)
  run_stream_tick-Ensures = Passes.run_stream_tick-Ensures commands host options Kept laws leaves

  ensure_group-Ensures : Ensures Safe Always (ensure_group commands host options) (Any Safe)
  ensure_group-Ensures = Passes.ensure_group-Ensures commands host options Kept laws leaves

  recover-Safe :
      (reply : Reply StreamTickOutcome) (w : Work S)
      → Safe w
      → Safe (recover commands host options reply w).0
  unfolding recover
  recover-Safe (ok outcome) w safe = safe
  recover-Safe (error no_group) w safe =
      (bind-Ensures Safe Always (Any Safe) (Any Safe) (ensure_group commands host options)
        (λ _. pure false) ensure_group-Ensures (λ o w safe p. (safe, tt)) w safe tt).0
  recover-Safe (error (other message)) w safe = safe

  turn_from-Safe :
      (loop : LoopState) (now random : ℕ) (worker : WorkerState) (w : Work S)
      → Safe w
      → Safe (turn_from commands host options loop now random worker w).1
  unfolding turn_from tick
  turn_from-Safe no_loop now random worker w safe = safe
  turn_from-Safe (rejected e) now random worker w safe = safe
  turn_from-Safe (looping failures) now random worker w safe =
      let due = is_reclaim_due options.reclaim_interval_ms now worker.last_reclaim_at in
      let (next, reply) = run_stream_tick commands host options due w in
      recover-Safe reply next (run_stream_tick-Ensures due w safe tt).0

  start-Safe :
      (worker : WorkerState) (w : Work S) → Safe w → Safe (start commands host options worker w).1
  unfolding start
  start-Safe worker w safe = elim (Bool-cases worker.running) [
    | inl on ↦ rw on safe
    | inr off ↦ rw off (ensure_group-Ensures w safe tt).0
  ]

  abbrev counting : S → S × Reply ℕ
  counting = commands.consumer_pending_count options.key options.group options.consumer

  counting-Safe : (w : Work S) → Safe w → Safe (record w { server = (counting w.server).0 })
  counting-Safe w safe =
      Accounts.server-Safe commands host options Kept laws leaves (counting w.server).0 w
        (λ id kept.
          laws.consumer_pending_count options.key options.group options.consumer id w.server kept)
        safe

  retire-Safe :
      (reply : Reply ℕ) (w : Work S)
      → (counting w.server).1 ≡ reply
      → Safe w
      → Safe (retire commands host options reply (record w { server = (counting w.server).0 }))
  unfolding retire
  retire-Safe (ok zero) w e safe =
      let remove = commands.delete_consumer options.key options.group options.consumer in
      Accounts.server-Safe commands host options Kept laws leaves (remove (counting w.server).0).0 w
        (λ id kept.
          laws.delete_consumer options.key options.group options.consumer id w.server e kept)
        safe
  retire-Safe (ok (suc n)) w e safe = counting-Safe w safe
  retire-Safe (error f) w e safe = counting-Safe w safe

  stop_from-Safe :
      (loop : LoopState) (worker : WorkerState) (w : Work S)
      → Safe w
      → Safe (stop_from commands host options loop worker w).1
  unfolding stop_from
  stop_from-Safe (rejected e) worker w safe = safe
  stop_from-Safe no_loop worker w safe = retire-Safe (counting w.server).1 w refl safe
  stop_from-Safe (looping n) worker w safe = retire-Safe (counting w.server).1 w refl safe

  step-Safe :
      (e : Event) (worker : WorkerState) (w : Work S)
      → Safe w
      → Safe (step commands host options (worker, w) e).1
  unfolding step stop turn
  step-Safe starts worker w safe = start-Safe worker w safe
  step-Safe stops worker w safe = elim (Bool-cases worker.running) [
    | inl on ↦ rw on (stop_from-Safe worker.loop (record worker { running = true }) w safe)
    | inr off ↦ rw off safe
  ]
  step-Safe (turns now random) worker w safe = turn_from-Safe worker.loop now random worker w safe
  step-Safe (runs_once due) worker w safe = (run_stream_tick-Ensures due w safe tt).0

  -- Over any life of a worker, started, stopped and turned in any order and with any errors, every entry
  -- that one of its reads handed out is still kept pending, or its handler was fulfilled in time or it
  -- was parked. The commands lose a pending entry only by an acknowledgement of it or the removal of a
  -- consumer that holds some, and the handler and the parking lot lose none.
  pub run-IsAccounted :
      (es : List Event) (worker : WorkerState) (w : Work S)
      → IsAccounted (Kept options.key options.group) w
      → IsAccounted (Kept options.key options.group) (run commands host options es (worker, w)).1
  unfolding run
  run-IsAccounted [] worker w safe = safe
  run-IsAccounted (e ∷ es) worker w safe =
      let (next, after) = step commands host options (worker, w) e in
      run-IsAccounted es next after (step-Safe e worker w safe)
