-- ===== src/WorkerPool/Slots.antt =====
-- The slots of src/workers/worker-pool.ts through `pump`.
use boilerplate_express_ts.Prelude.{
  ℕ, zero, suc, ◌≤◌, inl, inr, Bool, true, false, Option, none, some, List, [], ◌∷◌, ◌++◌, length,
  arith, Bool-cases,
}
use boilerplate_express_ts.WorkerPool.{
  is_closed, QueuedTask, WorkerPool, not_cloneable, set_current, acquire_worker, dispatch,
  pump_step, pump_round, pump_for, pump, answered, in_flight, posted,
}
use boilerplate_express_ts.WorkerPool.Workers.{current-set_self}
use boilerplate_express_ts.WorkerPool.Idle.{
  IsSound, IsHeld, Granted, Acquired, acquire_worker-Acquired,
}
use boilerplate_express_ts.WorkerPool.Posting.{
  post-IsSound, unpost-IsSound, relabel-IsSound, relabel-IsHeld, requeue-IsSound, release-IsSound,
}

module _ {V : Type 0} where
  pub posted-IsSound :
      (w : ℕ) (t : QueuedTask) (p : WorkerPool V)
      → IsSound (some w) p
      → IsHeld w p
      → IsSound none (posted w t p)
  posted-IsSound w t p s k =
      let task = in_flight t p in
      relabel-IsSound none p.state (suc p.next_task_id) p.drained p.answers
        (record p { workers = set_current w (some task) p.workers }) (post-IsSound w task p s k)

  -- The task at the head of the queue goes to the worker that was acquired.
  pub next_task-IsSound :
      (w : ℕ) (ts : List QueuedTask) (p q : WorkerPool V)
      → length ts ≤ p.max_queue_depth
      → Granted p w q
      → IsSound (some w) (record q { queue = ts }) × IsHeld w (record q { queue = ts })
  next_task-IsSound w ts p q h a = (
    requeue-IsSound (some w) ts q (omega (arith, h, a.depth)) a.sound,
    record { idles = a.held.idles; taken = a.held.taken },
  )

  module _ (next : WorkerPool V → WorkerPool V)
      (keeps : (p : WorkerPool V) → IsSound none p → IsSound none (next p)) where
    pub dispatch-IsSound :
        (w : ℕ) (t : QueuedTask) (p : WorkerPool V)
        → IsSound (some w) p
        → IsHeld w p
        → IsSound none (dispatch next w t p)
    unfolding dispatch
    dispatch-IsSound w t p s k =
        let task = in_flight t p in
        let fresh = posted w t p in
        let sound = posted-IsSound w t p s k in
        elim (Bool-cases t.cloneable) [
          | inl e ↦ rw (e, dispatch) sound
          | inr e ↦
              let mine = current-set_self w (some task) none p.workers k.idles in
              let (freed, held) = unpost-IsSound w task fresh sound mine in
              let bare = record fresh { workers = set_current w none fresh.workers } in
              let answers = p.answers ++ (t.caller, not_cloneable) ∷ [] in
              rw (e, dispatch)
                (release-IsSound next keeps w (answered w task not_cloneable fresh)
                  (relabel-IsSound (some w) p.state fresh.next_task_id p.drained answers bare freed)
                  (relabel-IsHeld w p.state fresh.next_task_id p.drained answers bare held))
        ]

    pump_step-IsSound :
        (p : WorkerPool V) (ts : List QueuedTask) (b : Bool) (o : Option (ℕ × WorkerPool V))
        → IsSound none p
        → length ts ≤ p.max_queue_depth
        → Acquired p o
        → IsSound none (pump_step next p ts b o)
    unfolding pump_step
    pump_step-IsSound p [] b o s h a = s
    pump_step-IsSound p (t ∷ ts) true o s h a = s
    pump_step-IsSound p (t ∷ ts) false none s h a = s
    pump_step-IsSound p (t ∷ ts) false (some (w, q)) s h a =
        let (sound, held) = next_task-IsSound w ts p q (omega (arith, h)) a in
        keeps (dispatch next w t (record q { queue = ts }))
          (dispatch-IsSound w t (record q { queue = ts }) sound held)

    pub pump_round-IsSound : (p : WorkerPool V) → IsSound none p → IsSound none (pump_round next p)
    unfolding pump_round
    pump_round-IsSound p s =
        pump_step-IsSound p p.queue (is_closed p.state) (acquire_worker p) s s.depth
          (acquire_worker-Acquired p s)

  pub pump_for-IsSound : (n : ℕ) (p : WorkerPool V) → IsSound none p → IsSound none (pump_for n p)
  unfolding pump_for
  pump_for-IsSound zero p s = s
  pump_for-IsSound (suc n) p s = pump_round-IsSound (pump_for n) (pump_for-IsSound n) p s

  pub pump-IsSound : (p : WorkerPool V) → IsSound none p → IsSound none (pump p)
  unfolding pump
  pump-IsSound p s = pump_for-IsSound (length p.queue) p s
