-- ===== src/WorkerPool/Orderly.antt =====
-- src/workers/worker-pool.ts over a history: the tasks that wait, the workers and the state of the pool.
use boilerplate_express_ts.Prelude.{
  ℕ, ◌≡◌, ◌≢◌, inl, inr, refl, false, Option, none, some, List, [], ◌∷◌, ◌++◌, ◌==◌, arith,
  Bool-cases,
}
use boilerplate_express_ts.WorkerPool.{
  Drained, not_asked, pending, settled, draining, is_closed, is_open, InFlightTask, QueuedTask,
  WorkerPool, Answer, timed_out, crashed, pool_closed, current_of, acquire_worker, retire, pump,
  answered, run, outcome, reply, on_message, expire, on_timeout, lose, on_worker_failure,
  begin_draining, drain, terminate, resolve_drained, on_destroyed,
}
use boilerplate_express_ts.WorkerPool.Idle.{IsSound, acquire_worker-Acquired}
use boilerplate_express_ts.WorkerPool.Histories.{
  Event, runs, replies, expires, fails, drains, terminates, destroyed, step, after,
  answered-IsSound, step-IsSound,
}
use boilerplate_express_ts.WorkerPool.Order.{IsServed, IsOrderly, settle-IsOrderly}
use boilerplate_express_ts.WorkerPool.Serving.{
  gone-IsQuiet, retire-IsOrderly, release-IsOrderly, place-IsOrderly,
}

module _ {V : Type 0} where
  -- An operation that changes answers or the promise of `drain` only.
  relabel-IsOrderly :
      (n : ℕ) (d : Drained) (a : List (ℕ × Answer V)) (p : WorkerPool V)
      → IsOrderly p
      → IsOrderly (record p { next_task_id = n; drained = d; answers = a })
  relabel-IsOrderly n d a p k = record { served = k.served; quiet = k.quiet; lively = k.lively }

  run-IsOrderly :
      (t : QueuedTask) (p : WorkerPool V) → IsSound none p → IsOrderly p → IsOrderly (run t p)
  unfolding run
  run-IsOrderly t p s k = elim (Bool-cases (is_open p.state)) [
    | inl e ↦
        rw (e, run) (place-IsOrderly t p (acquire_worker p) e refl (acquire_worker-Acquired p s) k)
    | inr e ↦
        rw (e, run)
          (relabel-IsOrderly p.next_task_id p.drained
            (p.answers ++ (t.caller, pool_closed p.state) ∷ []) p k)
  ]

  lost-IsOrderly :
      (w : ℕ) (t : InFlightTask) (a : Answer V) (p : WorkerPool V)
      → IsSound none p
      → IsOrderly p
      → current_of w p.workers ≡ some (some t)
      → IsOrderly (retire pump w (answered w t a p))
  lost-IsOrderly w t a p s k h =
      let (sound, held) = answered-IsSound w t a p s h in
      retire-IsOrderly w (some w) (answered w t a p) (λ i e. ground (arith, e))
        (λ gone. ground (arith, gone, held.idles))
        (gone-IsQuiet w p (λ gone. ground (arith, gone, h)) k.quiet) sound

  reply-IsOrderly :
      (w id : ℕ) (a : Answer V) (c : Option (Option InFlightTask)) (p : WorkerPool V)
      → current_of w p.workers ≡ c
      → IsSound none p
      → IsOrderly p
      → IsOrderly (reply w id a c p)
  unfolding reply
  reply-IsOrderly w id a none p h s k = k
  reply-IsOrderly w id a (some none) p h s k = k
  reply-IsOrderly w id a (some (some t)) p h s k = elim (Bool-cases (t.id == id)) [
    | inl e ↦
        let (sound, held) = answered-IsSound w t a p s h in
        rw (e, reply)
          (release-IsOrderly w (answered w t a p)
            (gone-IsQuiet w p (λ gone. ground (arith, gone, h)) k.quiet) sound held)
    | inr e ↦ rw (e, reply) k
  ]

  expire-IsOrderly :
      (w id : ℕ) (c : Option (Option InFlightTask)) (p : WorkerPool V)
      → current_of w p.workers ≡ c
      → IsSound none p
      → IsOrderly p
      → IsOrderly (expire w id c p)
  unfolding expire
  expire-IsOrderly w id none p h s k = k
  expire-IsOrderly w id (some none) p h s k = k
  expire-IsOrderly w id (some (some t)) p h s k = elim (Bool-cases (t.id == id)) [
    | inl e ↦ rw (e, expire) (lost-IsOrderly w t timed_out p s k h)
    | inr e ↦ rw (e, expire) k
  ]

  lose-IsOrderly :
      (w : ℕ) (c : Option (Option InFlightTask)) (p : WorkerPool V)
      → current_of w p.workers ≡ c
      → IsSound none p
      → IsOrderly p
      → IsOrderly (lose w c p)
  unfolding lose
  lose-IsOrderly w none p h s k = k
  lose-IsOrderly w (some none) p h s k =
      let here : current_of w p.workers ≢ none = λ gone. ground (arith, gone, h) in
      retire-IsOrderly w none p (λ i e. ground (arith, e)) here (gone-IsQuiet w p here k.quiet) s
  lose-IsOrderly w (some (some t)) p h s k = lost-IsOrderly w t crashed p s k h

  begin_draining-IsOrderly :
      (d : Drained) (p : WorkerPool V)
      → is_closed p.state ≡ false
      → IsOrderly p
      → IsOrderly (begin_draining d p)
  unfolding begin_draining
  begin_draining-IsOrderly not_asked p still k =
      let q : WorkerPool V = record p { state = draining; drained = pending } in
      settle-IsOrderly q (kept k.served) (λ h. cc)
    where
      kept : IsServed p → IsServed (record p { state = draining; drained = pending })
      kept (inl none_waits) = inl none_waits
      kept (inr (inl shut)) = absurd (ground (arith, still, shut))
      kept (inr (inr full)) = inr (inr full)
  begin_draining-IsOrderly pending p still k = k
  begin_draining-IsOrderly settled p still k = k

  drain-IsOrderly : (p : WorkerPool V) → IsOrderly p → IsOrderly (drain p)
  unfolding drain
  drain-IsOrderly p k = elim (Bool-cases (is_closed p.state)) [
    | inl e ↦ rw (e, drain) k
    | inr e ↦ rw (e, drain) (begin_draining-IsOrderly p.drained p e k)
  ]

  terminate-IsOrderly : (p : WorkerPool V) → IsOrderly p → IsOrderly (terminate p)
  unfolding terminate
  terminate-IsOrderly p k = elim (Bool-cases (is_closed p.state)) [
    | inl e ↦ rw (e, terminate) k
    | inr e ↦
        rw (e, terminate) (record { served = inl refl; quiet = λ h. (refl, refl); lively = refl })
  ]

  resolve_drained-IsOrderly :
      (d : Drained) (p : WorkerPool V) → IsOrderly p → IsOrderly (resolve_drained d p)
  unfolding resolve_drained
  resolve_drained-IsOrderly pending p k = elim (Bool-cases (is_closed p.state)) [
    | inl e ↦ rw (e, resolve_drained) (relabel-IsOrderly p.next_task_id settled p.answers p k)
    | inr e ↦ rw (e, resolve_drained) k
  ]
  resolve_drained-IsOrderly not_asked p k = k
  resolve_drained-IsOrderly settled p k = k

  pub step-IsOrderly :
      (e : Event V) (p : WorkerPool V) → IsSound none p → IsOrderly p → IsOrderly (step p e)
  unfolding step on_message on_timeout on_worker_failure on_destroyed
  step-IsOrderly (runs t) p s k = run-IsOrderly t p s k
  step-IsOrderly (replies w id is_ok v) p s k =
      reply-IsOrderly w id (outcome is_ok v) (current_of w p.workers) p refl s k
  step-IsOrderly (expires w id) p s k = expire-IsOrderly w id (current_of w p.workers) p refl s k
  step-IsOrderly (fails w) p s k = lose-IsOrderly w (current_of w p.workers) p refl s k
  step-IsOrderly drains p s k = drain-IsOrderly p k
  step-IsOrderly terminates p s k = terminate-IsOrderly p k
  step-IsOrderly destroyed p s k = resolve_drained-IsOrderly p.drained p k

  pub after-IsOrderly :
      (es : List (Event V)) (p : WorkerPool V)
      → IsSound none p
      → IsOrderly p
      → IsOrderly (after p es)
  unfolding after
  after-IsOrderly [] p s k = k
  after-IsOrderly (e ∷ es) p s k =
      after-IsOrderly es (step p e) (step-IsSound e p s) (step-IsOrderly e p s k)
