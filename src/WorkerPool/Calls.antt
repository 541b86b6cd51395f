-- ===== src/WorkerPool/Calls.antt =====
-- The calls of src/workers/worker-pool.ts and their answers, over a history.
use boilerplate_express_ts.Prelude.{
  ℕ, ◌+◌, ◌≡◌, inl, inr, refl, ap, ◌∙◌, Option, none, some, List, [], ◌∷◌, ◌++◌, leb, ◌==◌, length,
  arith, Bool-cases, count, count-append,
}
use boilerplate_express_ts.WorkerPool.{
  Drained, not_asked, pending, settled, draining, is_closed, is_open, InFlightTask, QueuedTask,
  WorkerPool, Answer, timed_out, crashed, pool_closed, queue_full, current_of, busy, busy_callers,
  queued_callers, acquire_worker, retire, pump, answered, place, run, outcome, reply, on_message,
  expire, on_timeout, lose, on_worker_failure, begin_draining, drain, refusals, terminate,
  resolve_drained, on_destroyed,
}
use boilerplate_express_ts.WorkerPool.Idle.{IsSound, Acquired, acquire_worker-Acquired}
use boilerplate_express_ts.WorkerPool.Slots.{pump-IsSound}
use boilerplate_express_ts.WorkerPool.Histories.{
  Event, runs, replies, expires, fails, drains, terminates, destroyed, step, after,
  answered-IsSound, step-IsSound,
}
use boilerplate_express_ts.WorkerPool.Accounts.{
  count-queued, answered_callers, answered-refusals, count-answered, total, settle-total,
  answered-total, retire-total, release-total, dispatch-total, pump-total,
}

module _ {V : Type 0} where
  module _ (c : ℕ) where
    place-total :
        (t : QueuedTask) (p : WorkerPool V) (o : Option (ℕ × WorkerPool V))
        → IsSound none p
        → Acquired p o
        → total c (place t p o) ≡ total c p + count c (t.caller ∷ [])
    unfolding place
    place-total t p (some (w, q)) s a =
        dispatch-total c pump pump-IsSound (pump-total c) w t q a.sound a.held
        ∙ omega (
          arith,
          ap (λ (x : List (ℕ × Answer V)). count c (answered_callers x)) a.answers,
          ap (λ x. count c (busy_callers x)) a.at_work,
          ap (λ x. count c (queued_callers x)) a.queue,
        )
    place-total t p none s a = elim (Bool-cases (leb p.max_queue_depth (length p.queue))) [
      | inl e ↦
          rw (e, place)
            (omega
              (arith, count-answered c p.answers ((t.caller, queue_full (length p.queue)) ∷ [])))
      | inr e ↦ rw (e, place) (omega (arith, count-queued c p.queue (t ∷ [])))
    ]

    run-total :
        (t : QueuedTask) (p : WorkerPool V)
        → IsSound none p
        → total c (run t p) ≡ total c p + count c (t.caller ∷ [])
    unfolding run
    run-total t p s = elim (Bool-cases (is_open p.state)) [
      | inl e ↦ rw (e, run) (place-total t p (acquire_worker p) s (acquire_worker-Acquired p s))
      | inr e ↦
          rw (e, run)
            (omega (arith, count-answered c p.answers ((t.caller, pool_closed p.state) ∷ [])))
    ]

    lost-total :
        (w : ℕ) (t : InFlightTask) (a : Answer V) (p : WorkerPool V)
        → IsSound none p
        → current_of w p.workers ≡ some (some t)
        → total c (retire pump w (answered w t a p)) ≡ total c p
    lost-total w t a p s h =
        let (sound, held) = answered-IsSound w t a p s h in
        retire-total c pump pump-IsSound (pump-total c) w (some w) (answered w t a p)
          (λ i e. ground (arith, e)) held.idles sound
        ∙ answered-total c w t a p h

    reply-total :
        (w id : ℕ) (a : Answer V) (x : Option (Option InFlightTask)) (p : WorkerPool V)
        → current_of w p.workers ≡ x
        → IsSound none p
        → total c (reply w id a x p) ≡ total c p
    unfolding reply
    reply-total w id a none p h s = refl
    reply-total w id a (some none) p h s = refl
    reply-total w id a (some (some t)) p h s = elim (Bool-cases (t.id == id)) [
      | inl e ↦
          let (sound, held) = answered-IsSound w t a p s h in
          rw (e, reply)
            (release-total c pump pump-IsSound (pump-total c) w (answered w t a p) sound held
              ∙ answered-total c w t a p h)
      | inr e ↦ rw (e, reply) refl
    ]

    expire-total :
        (w id : ℕ) (x : Option (Option InFlightTask)) (p : WorkerPool V)
        → current_of w p.workers ≡ x
        → IsSound none p
        → total c (expire w id x p) ≡ total c p
    unfolding expire
    expire-total w id none p h s = refl
    expire-total w id (some none) p h s = refl
    expire-total w id (some (some t)) p h s = elim (Bool-cases (t.id == id)) [
      | inl e ↦ rw (e, expire) (lost-total w t timed_out p s h)
      | inr e ↦ rw (e, expire) refl
    ]

    lose-total :
        (w : ℕ) (x : Option (Option InFlightTask)) (p : WorkerPool V)
        → current_of w p.workers ≡ x
        → IsSound none p
        → total c (lose w x p) ≡ total c p
    unfolding lose
    lose-total w none p h s = refl
    lose-total w (some none) p h s =
        retire-total c pump pump-IsSound (pump-total c) w none p (λ i e. ground (arith, e)) h s
    lose-total w (some (some t)) p h s = lost-total w t crashed p s h

    begin_draining-total :
        (d : Drained) (p : WorkerPool V) → total c (begin_draining d p) ≡ total c p
    unfolding begin_draining
    begin_draining-total not_asked p =
        settle-total c (record p { state = draining; drained = pending })
    begin_draining-total pending p = refl
    begin_draining-total settled p = refl

    drain-total : (p : WorkerPool V) → total c (drain p) ≡ total c p
    unfolding drain
    drain-total p = elim (Bool-cases (is_closed p.state)) [
      | inl e ↦ rw (e, drain) refl
      | inr e ↦ rw (e, drain) (begin_draining-total p.drained p)
    ]

    terminate-total : (p : WorkerPool V) → total c (terminate p) ≡ total c p
    unfolding terminate
    terminate-total p = elim (Bool-cases (is_closed p.state)) [
      | inl e ↦ rw (e, terminate) refl
      | inr e ↦
          let left = queued_callers p.queue ++ busy_callers (busy p.workers) in
          rw (e, terminate)
            (omega (
              arith,
              count-answered c p.answers (refusals left),
              ap (λ x. count c x) (answered-refusals V left),
              count-append c (queued_callers p.queue) (busy_callers (busy p.workers)),
            ))
    ]

    resolve_drained-total :
        (d : Drained) (p : WorkerPool V) → total c (resolve_drained d p) ≡ total c p
    unfolding resolve_drained
    resolve_drained-total pending p = elim (Bool-cases (is_closed p.state)) [
      | inl e ↦ rw (e, resolve_drained) refl
      | inr e ↦ rw (e, resolve_drained) refl
    ]
    resolve_drained-total not_asked p = refl
    resolve_drained-total settled p = refl

    -- The calls of `c` in an event.
    abbrev pub called : Event V → ℕ
    called (runs t) = count c (t.caller ∷ [])
    called _ = 0

    step-total :
        (e : Event V) (p : WorkerPool V)
        → IsSound none p
        → total c (step p e) ≡ total c p + called e
    unfolding step on_message on_timeout on_worker_failure on_destroyed
    step-total (runs t) p s = run-total t p s
    step-total (replies w id is_ok v) p s =
        omega (arith, reply-total w id (outcome is_ok v) (current_of w p.workers) p refl s)
    step-total (expires w id) p s =
        omega (arith, expire-total w id (current_of w p.workers) p refl s)
    step-total (fails w) p s = omega (arith, lose-total w (current_of w p.workers) p refl s)
    step-total drains p s = omega (arith, drain-total p)
    step-total terminates p s = omega (arith, terminate-total p)
    step-total destroyed p s = omega (arith, resolve_drained-total p.drained p)

    abbrev pub calls : List (Event V) → ℕ
    calls [] = 0
    calls (e ∷ es) = called e + calls es

    pub after-total :
        (es : List (Event V)) (p : WorkerPool V)
        → IsSound none p
        → total c (after p es) ≡ total c p + calls es
    unfolding after
    after-total [] p s = omega arith
    after-total (e ∷ es) p s =
        omega (arith, after-total es (step p e) (step-IsSound e p s), step-total e p s)
