-- ===== src/WorkerPool/Histories.antt =====
-- src/workers/worker-pool.ts over a history of calls, messages, timers, exits and shutdowns.
use boilerplate_express_ts.Prelude.{
  ℕ, ◌≤◌, ◌≡◌, inl, inr, refl, subst, Bool, Option, none, some, List, [], ◌∷◌, ◌++◌, leb, ◌==◌,
  length, length-append, arith, Bool-cases,
}
use boilerplate_express_ts.WorkerPool.{
  Drained, not_asked, pending, settled, opened, draining, closed, is_closed, is_open, InFlightTask,
  QueuedTask, WorkerPool, Answer, timed_out, crashed, pool_closed, queue_full, current_of,
  set_current, busy, busy_callers, queued_callers, create, acquire_worker, retire, pump, answered,
  place, run, outcome, reply, on_message, expire, on_timeout, lose, on_worker_failure,
  begin_draining, drain, refusals, terminate, resolve_drained, on_destroyed,
}
use boilerplate_express_ts.WorkerPool.Idle.{IsSound, IsHeld, Acquired, acquire_worker-Acquired}
use boilerplate_express_ts.WorkerPool.Posting.{
  unpost-IsSound, settle-IsSound, relabel-IsSound, relabel-IsHeld, requeue-IsSound, retire-IsSound,
  release-IsSound,
}
use boilerplate_express_ts.WorkerPool.Slots.{dispatch-IsSound, pump-IsSound}

pub data Event (V : Type 0) : Type 0 where
  runs : QueuedTask → Event V
  replies : (worker id : ℕ) → (is_ok : Bool) → V → Event V
  expires : (worker id : ℕ) → Event V
  fails : (worker : ℕ) → Event V
  drains terminates destroyed : Event V

module _ {V : Type 0} where
  unfoldable pub step : WorkerPool V → Event V → WorkerPool V
  step p (runs t) = run t p
  step p (replies w id is_ok v) = on_message w id is_ok v p
  step p (expires w id) = on_timeout w id p
  step p (fails w) = on_worker_failure w p
  step p drains = drain p
  step p terminates = terminate p
  step p destroyed = on_destroyed p

  unfoldable pub after : WorkerPool V → List (Event V) → WorkerPool V
  after p [] = p
  after p (e ∷ es) = after (step p e) es

  place-IsSound :
      (t : QueuedTask) (p : WorkerPool V) (o : Option (ℕ × WorkerPool V))
      → IsSound none p
      → Acquired p o
      → IsSound none (place t p o)
  unfolding place
  place-IsSound t p (some (w, q)) s a = dispatch-IsSound pump pump-IsSound w t q a.sound a.held
  place-IsSound t p none s a = elim (Bool-cases (leb p.max_queue_depth (length p.queue))) [
    | inl e ↦
        rw (e, place)
          (relabel-IsSound none p.state p.next_task_id p.drained
            (p.answers ++ (t.caller, queue_full (length p.queue)) ∷ []) p s)
    | inr e ↦
        rw (e, place)
          (requeue-IsSound none (p.queue ++ t ∷ []) p
            (ground (arith, length-append p.queue (t ∷ []))) s)
  ]

  run-IsSound : (t : QueuedTask) (p : WorkerPool V) → IsSound none p → IsSound none (run t p)
  unfolding run
  run-IsSound t p s = elim (Bool-cases (is_open p.state)) [
    | inl e ↦ rw (e, run) (place-IsSound t p (acquire_worker p) s (acquire_worker-Acquired p s))
    | inr e ↦
        rw (e, run)
          (relabel-IsSound none p.state p.next_task_id p.drained
            (p.answers ++ (t.caller, pool_closed p.state) ∷ []) p s)
  ]

  pub answered-IsSound :
      (w : ℕ) (t : InFlightTask) (a : Answer V) (p : WorkerPool V)
      → IsSound none p
      → current_of w p.workers ≡ some (some t)
      → IsSound (some w) (answered w t a p) × IsHeld w (answered w t a p)
  answered-IsSound w t a p s h =
      let (sound, held) = unpost-IsSound w t p s h in
      let q = record p { workers = set_current w none p.workers } in
      let answers = p.answers ++ (t.caller, a) ∷ [] in
      (
        relabel-IsSound (some w) p.state p.next_task_id p.drained answers q sound,
        relabel-IsHeld w p.state p.next_task_id p.drained answers q held,
      )

  lost-IsSound :
      (w : ℕ) (t : InFlightTask) (a : Answer V) (p : WorkerPool V)
      → IsSound none p
      → current_of w p.workers ≡ some (some t)
      → IsSound none (retire pump w (answered w t a p))
  lost-IsSound w t a p s h =
      let (sound, held) = answered-IsSound w t a p s h in
      retire-IsSound pump pump-IsSound w (some w) (answered w t a p) (λ i e. ground (arith, e))
        (λ gone. ground (arith, gone, held.idles)) sound

  reply-IsSound :
      (w id : ℕ) (a : Answer V) (c : Option (Option InFlightTask)) (p : WorkerPool V)
      → current_of w p.workers ≡ c
      → IsSound none p
      → IsSound none (reply w id a c p)
  unfolding reply
  reply-IsSound w id a none p h s = s
  reply-IsSound w id a (some none) p h s = s
  reply-IsSound w id a (some (some t)) p h s = elim (Bool-cases (t.id == id)) [
    | inl e ↦
        let (sound, held) = answered-IsSound w t a p s h in
        rw (e, reply) (release-IsSound pump pump-IsSound w (answered w t a p) sound held)
    | inr e ↦ rw (e, reply) s
  ]

  expire-IsSound :
      (w id : ℕ) (c : Option (Option InFlightTask)) (p : WorkerPool V)
      → current_of w p.workers ≡ c
      → IsSound none p
      → IsSound none (expire w id c p)
  unfolding expire
  expire-IsSound w id none p h s = s
  expire-IsSound w id (some none) p h s = s
  expire-IsSound w id (some (some t)) p h s = elim (Bool-cases (t.id == id)) [
    | inl e ↦ rw (e, expire) (lost-IsSound w t timed_out p s h)
    | inr e ↦ rw (e, expire) s
  ]

  lose-IsSound :
      (w : ℕ) (c : Option (Option InFlightTask)) (p : WorkerPool V)
      → current_of w p.workers ≡ c
      → IsSound none p
      → IsSound none (lose w c p)
  unfolding lose
  lose-IsSound w none p h s = s
  lose-IsSound w (some none) p h s =
      retire-IsSound pump pump-IsSound w none p (λ i e. ground (arith, e))
        (λ gone. ground (arith, gone, h)) s
  lose-IsSound w (some (some t)) p h s = lost-IsSound w t crashed p s h

  drain-IsSound : (p : WorkerPool V) → IsSound none p → IsSound none (drain p)
  unfolding drain
  drain-IsSound p s = elim (Bool-cases (is_closed p.state)) [
    | inl e ↦ rw (e, drain) s
    | inr e ↦ rw (e, drain) (begun p.drained)
  ]
    where
      begun : (d : Drained) → IsSound none (begin_draining d p)
      begun not_asked =
          settle-IsSound (record p { state = draining; drained = pending })
            (relabel-IsSound none draining p.next_task_id pending p.answers p s)
      begun pending = s
      begun settled = s

  emptied-IsSound :
      (a : List (ℕ × Answer V)) (p : WorkerPool V)
      → 1 ≤ p.size
      → IsSound none (record p { state = closed; queue = []; workers = []; idle = []; answers = a })
  unfolding current_of
  emptied-IsSound a p h = record {
    bounded = omega arith;
    depth = omega arith;
    positive = h;
    named = omega arith;
    free = tt;
    distinct = tt;
    listed = λ i g. absurd (ground (arith, g));
  }

  terminate-IsSound : (p : WorkerPool V) → IsSound none p → IsSound none (terminate p)
  unfolding terminate
  terminate-IsSound p s = elim (Bool-cases (is_closed p.state)) [
    | inl e ↦ rw (e, terminate) s
    | inr e ↦
        rw (e, terminate)
          (emptied-IsSound
            (p.answers ++ refusals (queued_callers p.queue ++ busy_callers (busy p.workers))) p
            s.positive)
  ]

  resolve_drained-IsSound :
      (d : Drained) (p : WorkerPool V) → IsSound none p → IsSound none (resolve_drained d p)
  unfolding resolve_drained
  resolve_drained-IsSound pending p s = elim (Bool-cases (is_closed p.state)) [
    | inl e ↦
        rw (e, resolve_drained) (relabel-IsSound none p.state p.next_task_id settled p.answers p s)
    | inr e ↦ rw (e, resolve_drained) s
  ]
  resolve_drained-IsSound not_asked p s = s
  resolve_drained-IsSound settled p s = s

  pub step-IsSound : (e : Event V) (p : WorkerPool V) → IsSound none p → IsSound none (step p e)
  unfolding step on_message on_timeout on_worker_failure on_destroyed
  step-IsSound (runs t) p s = run-IsSound t p s
  step-IsSound (replies w id is_ok v) p s =
      reply-IsSound w id (outcome is_ok v) (current_of w p.workers) p refl s
  step-IsSound (expires w id) p s = expire-IsSound w id (current_of w p.workers) p refl s
  step-IsSound (fails w) p s = lose-IsSound w (current_of w p.workers) p refl s
  step-IsSound drains p s = drain-IsSound p s
  step-IsSound terminates p s = terminate-IsSound p s
  step-IsSound destroyed p s = resolve_drained-IsSound p.drained p s

  pub after-IsSound :
      (es : List (Event V)) (p : WorkerPool V) → IsSound none p → IsSound none (after p es)
  unfolding after
  after-IsSound [] p s = s
  after-IsSound (e ∷ es) p s = after-IsSound es (step p e) (step-IsSound e p s)

  pub create-IsSound :
      (size max_queue_depth : ℕ) (p : WorkerPool V)
      → create size max_queue_depth ≡ some p
      → IsSound none p
  unfolding create current_of
  create-IsSound size max_queue_depth p h = elim (Bool-cases (size == 0)) [
    | inl e ↦ absurd (ground (arith, h))
    | inr e ↦
        let new : WorkerPool V = record {
          size = size;
          max_queue_depth = max_queue_depth;
          workers = [];
          idle = [];
          queue = [];
          state = opened;
          next_task_id = 1;
          next_name = 0;
          drained = not_asked;
          answers = [];
        } in
        let same : new ≡ p = ground arith in
        subst (IsSound none) same (record {
          bounded = omega arith;
          depth = omega arith;
          positive = ground arith;
          named = omega arith;
          free = tt;
          distinct = tt;
          listed = λ i g. absurd (ground (arith, g));
        })
  ]
