-- ===== src/WorkerPool/Closing.antt =====
-- src/workers/worker-pool.ts: the timers of a pool that takes no more calls.
use boilerplate_express_ts.Prelude.{
  ℕ, zero, suc, ◌≤◌, ◌≡◌, inl, inr, refl, ◌∙◌, Bool, true, false, none, some, List, [], ◌∷◌, length,
  arith, Bool-cases,
}
use boilerplate_express_ts.WorkerPool.{
  is_closed, is_open, InFlightTask, WorkerPool, create, on_timeout,
}
use boilerplate_express_ts.WorkerPool.Idle.{IsSound}
use boilerplate_express_ts.WorkerPool.Histories.{
  Event, expires, step, after, step-IsSound, after-IsSound, create-IsSound,
}
use boilerplate_express_ts.WorkerPool.Order.{IsOrderly}
use boilerplate_express_ts.WorkerPool.Orderly.{step-IsOrderly, after-IsOrderly}
use boilerplate_express_ts.WorkerPool.Promises.{create-IsOrderly, draining_busy}
use boilerplate_express_ts.WorkerPool.Drains.{busy-settle, still_draining, left, expire-left}

module _ {V : Type 0} where
  abbrev pub are_timers : List (Event V) → Bool
  are_timers [] = true
  are_timers (expires w id ∷ es) = are_timers es
  are_timers (_ ∷ es) = false

  -- Timers that end a pool.
  abbrev pub EndsWithin : ℕ → WorkerPool V → Type 0
  EndsWithin n p =
      (es : List (Event V)) × (are_timers es ≡ true)
      × (length es ≤ n)
      × (is_closed (after p es).state ≡ true)

  one_more :
      (n w : ℕ) (t : InFlightTask) (p : WorkerPool V)
      → EndsWithin n (on_timeout w t.id p)
      → EndsWithin (suc n) p
  unfolding after step
  one_more n w t p (es, timers, short, ends) =
      (expires w t.id ∷ es, timers, omega (arith, short), ends)

  ended : (n : ℕ) (p : WorkerPool V) → is_closed p.state ≡ true → EndsWithin n p
  unfolding after
  ended n p e = ([], refl, omega arith, e)

  fired-IsSound : (w id : ℕ) (p : WorkerPool V) → IsSound none p → IsSound none (on_timeout w id p)
  unfolding step
  fired-IsSound w id p s = step-IsSound (expires w id) p s

  fired-IsOrderly :
      (w id : ℕ) (p : WorkerPool V) → IsSound none p → IsOrderly p → IsOrderly (on_timeout w id p)
  unfolding step
  fired-IsOrderly w id p s k = step-IsOrderly (expires w id) p s k

  timers_end :
      (n : ℕ) (p : WorkerPool V)
      → left p ≤ n
      → IsSound none p
      → IsOrderly p
      → is_open p.state ≡ false
      → EndsWithin n p
  timers_end zero p h s k shut = elim (Bool-cases (is_closed p.state)) [
    | inl e ↦ ended 0 p e
    | inr e ↦
        let (w, t, found) = draining_busy p s k (still_draining p.state shut e) in
        absurd (omega (arith, h, busy-settle w t p.workers found))
  ]
  timers_end (suc n) p h s k shut = elim (Bool-cases (is_closed p.state)) [
    | inl e ↦ ended (suc n) p e
    | inr e ↦
        let (w, t, found) = draining_busy p s k (still_draining p.state shut e) in
        let (fewer, open_still) = expire-left w t p found in
        one_more n w t p (
          timers_end n (on_timeout w t.id p) (omega (arith, h, fewer)) (fired-IsSound w t.id p s)
            (fired-IsOrderly w t.id p s k) (open_still ∙ shut))
  ]

  -- When a pool that was created is no longer open, after any history, its timers close it, and no more
  -- of them are needed than there are tasks waiting or at work.
  pub timers_close :
      (size max_queue_depth : ℕ) (p : WorkerPool V) (made : create size max_queue_depth ≡ some p)
      (es : List (Event V))
      → is_open (after p es).state ≡ false
      → EndsWithin (left (after p es)) (after p es)
  timers_close size max_queue_depth p made es shut =
      let new = create-IsSound size max_queue_depth p made in
      timers_end (left (after p es)) (after p es) (omega arith) (after-IsSound es p new)
        (after-IsOrderly es p new (create-IsOrderly size max_queue_depth p made)) shut
