-- ===== src/WorkerPool/Serving.antt =====
-- src/workers/worker-pool.ts: the pump, and the placing of a task.
use boilerplate_express_ts.Prelude.{
  ℕ, zero, suc, ◌≤◌, ◌≡◌, ◌≢◌, inl, inr, refl, ap, ◌∙◌, Bool, true, false, Option, none, some, List,
  [], ◌∷◌, ◌++◌, leb, length, arith, Bool-cases, Option-cases,
}
use boilerplate_express_ts.WorkerPool.{
  WorkerPoolState, opened, draining, closed, is_closed, is_draining, is_open, QueuedTask,
  WorkerPool, not_cloneable, queue_full, current_of, remove, splice, acquire_worker,
  settle_drain_if_idle, retire, release, dispatch, pump_step, pump_round, pump_for, pump, answer,
  answered, in_flight, posted, place,
}
use boilerplate_express_ts.WorkerPool.Workers.{current-set_self}
use boilerplate_express_ts.WorkerPool.Idle.{
  IsSound, IsHeld, Granted, Acquired, acquire_worker-Acquired, acquire_worker_full,
}
use boilerplate_express_ts.WorkerPool.Posting.{remove-IsSound, idle_again-IsSound}
use boilerplate_express_ts.WorkerPool.Slots.{
  posted-IsSound, next_task-IsSound, dispatch-IsSound, pump_for-IsSound,
}
use boilerplate_express_ts.WorkerPool.Histories.{answered-IsSound}
use boilerplate_express_ts.WorkerPool.Order.{
  IsServed, IsQuiet, IsOrderly, settle-IsOrderly, dispatch-shrinks, pump_for-shrinks,
  pump_for-IsQuiet,
}

no_task : (ts : List QueuedTask) → length ts ≤ 0 → ts ≡ []
no_task [] h = refl
no_task (t ∷ ts) h = absurd (omega (arith, h))

when_open :
    (st : WorkerPoolState) → is_open st ≡ true → (is_closed st ≡ false) × (is_draining st ≡ false)
when_open opened h = (refl, refl)
when_open draining h = cc
when_open closed h = cc

module _ {V : Type 0} where
  pump_step-IsServed :
      (n : ℕ) (p : WorkerPool V) (ts : List QueuedTask) (b : Bool) (o : Option (ℕ × WorkerPool V))
      → ((q : WorkerPool V) → IsSound none q → length q.queue ≤ n → IsServed (pump_for n q))
      → p.queue ≡ ts
      → is_closed p.state ≡ b
      → Acquired p o
      → length ts ≤ suc n
      → length ts ≤ p.max_queue_depth
      → IsServed (pump_step (pump_for n) p ts b o)
  unfolding pump_step
  pump_step-IsServed n p [] b o ih e f a h d = inl e
  pump_step-IsServed n p (t ∷ ts) true o ih e f a h d = inr (inl f)
  pump_step-IsServed n p (t ∷ ts) false none ih e f a h d = inr (inr a)
  pump_step-IsServed n p (t ∷ ts) false (some (w, q)) ih e f a h d =
      let r = record q { queue = ts } in
      let (sound, held) = next_task-IsSound w ts p q (omega (arith, d)) a in
      ih (dispatch (pump_for n) w t r)
        (dispatch-IsSound (pump_for n) (pump_for-IsSound n) w t r sound held)
        (omega (arith, h, dispatch-shrinks (pump_for n) (pump_for-shrinks n) w t r))

  -- As many rounds as there are tasks leave no task that could be placed.
  pump_for-IsServed :
      (n : ℕ) (p : WorkerPool V) → IsSound none p → length p.queue ≤ n → IsServed (pump_for n p)
  unfolding pump_for pump_round
  pump_for-IsServed zero p s h = inl (no_task p.queue h)
  pump_for-IsServed (suc n) p s h =
      pump_step-IsServed n p p.queue (is_closed p.state) (acquire_worker p) (pump_for-IsServed n)
        refl refl (acquire_worker-Acquired p s) h s.depth

  -- What every operation ends with.
  pumped-IsOrderly :
      (p : WorkerPool V) → IsSound none p → IsQuiet p → IsOrderly (settle_drain_if_idle (pump p))
  unfolding pump
  pumped-IsOrderly p s quiet =
      settle-IsOrderly (pump_for (length p.queue) p)
        (pump_for-IsServed (length p.queue) p s (omega arith))
        (pump_for-IsQuiet (length p.queue) p quiet)

  pub gone-IsQuiet :
      (w : ℕ) (p : WorkerPool V)
      → current_of w p.workers ≢ none
      → IsQuiet p
      → is_closed p.state ≡ false
  unfolding current_of
  gone-IsQuiet w p here quiet = elim (Bool-cases (is_closed p.state)) [
    | inr e ↦ e
    | inl e ↦ absurd (here (ap (current_of w) (quiet e).1))
  ]

  pub retire-IsOrderly :
      (w : ℕ) (held : Option ℕ) (p : WorkerPool V)
      → ((i : ℕ) → held ≡ some i → i ≡ w)
      → current_of w p.workers ≢ none
      → is_closed p.state ≡ false
      → IsSound held p
      → IsOrderly (retire pump w p)
  unfolding retire
  retire-IsOrderly w held p only here still s = elim (Option-cases (current_of w p.workers)) [
    | inl e ↦ absurd (here e)
    | inr (x, e) ↦
        let q = record p { workers = remove w p.workers; idle = splice w p.idle } in
        rw (e, retire)
          (pumped-IsOrderly q (remove-IsSound w held p only s)
            λ h. absurd (ground (arith, still, h)))
  ]

  pub release-IsOrderly :
      (w : ℕ) (p : WorkerPool V)
      → is_closed p.state ≡ false
      → IsSound (some w) p
      → IsHeld w p
      → IsOrderly (release pump w p)
  unfolding release
  release-IsOrderly w p still s k =
      let q = record p { idle = w ∷ p.idle } in
      rw (k.idles, still, release)
        (pumped-IsOrderly q (idle_again-IsSound w p s k) λ h. absurd (ground (arith, still, h)))

  -- An open pool is orderly as soon as its tasks are served.
  open-IsOrderly : (p : WorkerPool V) → is_open p.state ≡ true → IsServed p → IsOrderly p
  open-IsOrderly p h served =
      let (live, calm) = when_open p.state h in
      record {
        served = served;
        quiet = λ e. absurd (ground (arith, live, e));
        lively = rw calm refl;
      }

  placed-IsServed :
      (w : ℕ) (t : QueuedTask) (p q : WorkerPool V)
      → is_open p.state ≡ true
      → acquire_worker p ≡ some (w, q)
      → Granted p w q
      → IsServed p
      → IsServed (posted w t q)
  placed-IsServed w t p q h e a (inl none_waits) = inl (a.queue ∙ none_waits)
  placed-IsServed w t p q h e a (inr (inl shut)) =
      absurd (ground (arith, (when_open p.state h).0, shut))
  placed-IsServed w t p q h e a (inr (inr (no_idle, full))) =
      let stuck = acquire_worker_full p no_idle (ground (arith, full)) in
      absurd (ground (arith, stuck, e))

  pub place-IsOrderly :
      (t : QueuedTask) (p : WorkerPool V) (o : Option (ℕ × WorkerPool V))
      → is_open p.state ≡ true
      → acquire_worker p ≡ o
      → Acquired p o
      → IsOrderly p
      → IsOrderly (place t p o)
  unfolding place dispatch
  place-IsOrderly t p (some (w, q)) h e a k =
      let still : is_open q.state ≡ true = ap (λ st. is_open st) a.state ∙ h in
      elim (Bool-cases t.cloneable) [
        | inl f ↦
            rw (f, place, dispatch)
              (open-IsOrderly (posted w t q) still (placed-IsServed w t p q h e a k.served))
        | inr f ↦
            let fresh = posted w t q in
            let mine = current-set_self w (some (in_flight t q)) none q.workers a.held.idles in
            let (sound, held) =
              answered-IsSound w (in_flight t q) not_cloneable fresh
                (posted-IsSound w t q a.sound a.held) mine in
            rw (f, place, dispatch)
              (release-IsOrderly w (answered w (in_flight t q) not_cloneable fresh)
                (when_open q.state still).0 sound held)
      ]
  place-IsOrderly t p none h e a k = elim (Bool-cases (leb p.max_queue_depth (length p.queue))) [
    | inl f ↦
        rw (f, place) (open-IsOrderly (answer t.caller (queue_full (length p.queue)) p) h k.served)
    | inr f ↦
        rw (f, place) (open-IsOrderly (record p { queue = p.queue ++ t ∷ [] }) h (inr (inr a)))
  ]
