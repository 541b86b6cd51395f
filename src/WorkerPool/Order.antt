-- ===== src/WorkerPool/Order.antt =====
-- src/workers/worker-pool.ts: how the tasks that wait, the workers and the state of the pool belong together,
-- and what the pump does with the queue.
use boilerplate_express_ts.Prelude.{
  ℕ, zero, suc, ◌≤◌, ◌≡◌, ◌⊎◌, inl, inr, refl, sym, ap, subst, ◌∙◌, Bool, true, false, ◌&&◌, Option,
  none, some, List, [], ◌∷◌, leb, length, arith, Bool-cases, Option-cases, List-cases,
}
use boilerplate_express_ts.WorkerPool.{
  is_closed, is_draining, is_empty, QueuedTask, WorkerPool, not_cloneable, current_of, remove,
  splice, busy, acquire_worker, settle_drain_if_idle, retire, release, dispatch, pump_step,
  pump_round, pump_for, pump, answered, in_flight, posted,
}
use boilerplate_express_ts.WorkerPool.Idle.{
  acquire_worker_full, acquire_worker_pop, acquire_worker_spawn,
}

pub nothing_left : {A : Type 0} (xs : List A) → is_empty xs ≡ true → xs ≡ []
nothing_left [] h = refl
nothing_left (x ∷ xs) h = cc

module _ {V : Type 0} where
  -- A task waits only while every worker is at work and no more may be spawned.
  abbrev pub IsServed : WorkerPool V → Type 0
  IsServed p =
      (p.queue ≡ []) ⊎ ((is_closed p.state ≡ true) ⊎ ((p.idle ≡ []) × (p.size ≤ length p.workers)))

  abbrev pub IsQuiet : WorkerPool V → Type 0
  IsQuiet p = is_closed p.state ≡ true → (p.queue ≡ []) × (p.workers ≡ [])

  -- A draining pool has a task left.
  abbrev pub IsLively : WorkerPool V → Type 0
  IsLively p = is_draining p.state && (is_empty p.queue && is_empty (busy p.workers)) ≡ false

  pub record IsOrderly (p : WorkerPool V) : Type 0 where
    pub served : IsServed p
    pub quiet : IsQuiet p
    pub lively : IsLively p

  pub settle-IsOrderly :
      (p : WorkerPool V) → IsServed p → IsQuiet p → IsOrderly (settle_drain_if_idle p)
  unfolding settle_drain_if_idle
  settle-IsOrderly p served quiet =
      elim (Bool-cases (is_draining p.state && (is_empty p.queue && is_empty (busy p.workers)))) [
        | inl e ↦
            let no_queue : p.queue ≡ [] = nothing_left p.queue (ground arith) in
            rw e (record { served = inl no_queue; quiet = λ h. (no_queue, refl); lively = refl })
        | inr e ↦ rw e (record { served = served; quiet = quiet; lively = e })
      ]

  settle-queue : (p : WorkerPool V) → (settle_drain_if_idle p).queue ≡ p.queue
  unfolding settle_drain_if_idle
  settle-queue p =
      elim (Bool-cases (is_draining p.state && (is_empty p.queue && is_empty (busy p.workers)))) [
        | inl e ↦ rw e refl
        | inr e ↦ rw e refl
      ]

  module _ (next : WorkerPool V → WorkerPool V)
      (shrinks : (p : WorkerPool V) → length (next p).queue ≤ length p.queue) where
    retire-shrinks : (w : ℕ) (p : WorkerPool V) → length (retire next w p).queue ≤ length p.queue
    unfolding retire
    retire-shrinks w p = elim (Option-cases (current_of w p.workers)) [
      | inl e ↦ rw (e, retire) (omega arith)
      | inr (x, e) ↦
          let q = record p { workers = remove w p.workers; idle = splice w p.idle } in
          rw (e, retire, settle-queue (next q)) (shrinks q)
    ]

    release-shrinks : (w : ℕ) (p : WorkerPool V) → length (release next w p).queue ≤ length p.queue
    unfolding release
    release-shrinks w p = elim (Option-cases (current_of w p.workers)) [
      | inl e ↦ rw (e, release) (omega arith)
      | inr (x, e) ↦ elim (Bool-cases (is_closed p.state)) [
        | inl f ↦ rw (e, f, release) (retire-shrinks w p)
        | inr f ↦
            let q = record p { idle = w ∷ p.idle } in
            rw (e, f, release, settle-queue (next q)) (shrinks q)
      ]
    ]

    pub dispatch-shrinks :
        (w : ℕ) (t : QueuedTask) (p : WorkerPool V)
        → length (dispatch next w t p).queue ≤ length p.queue
    unfolding dispatch
    dispatch-shrinks w t p = elim (Bool-cases t.cloneable) [
      | inl e ↦ rw (e, dispatch) (omega arith)
      | inr e ↦
          rw (e, dispatch)
            (release-shrinks w (answered w (in_flight t p) not_cloneable (posted w t p)))
    ]

    pump_step-shrinks :
        (p : WorkerPool V) (ts : List QueuedTask) (b : Bool) (o : Option (ℕ × WorkerPool V))
        → p.queue ≡ ts
        → length (pump_step next p ts b o).queue ≤ length ts
    unfolding pump_step
    pump_step-shrinks p [] b o e = rw e (omega arith)
    pump_step-shrinks p (t ∷ ts) true o e = rw e (omega arith)
    pump_step-shrinks p (t ∷ ts) false none e = rw e (omega arith)
    pump_step-shrinks p (t ∷ ts) false (some (w, q)) e =
        let r = record q { queue = ts } in
        omega (arith, shrinks (dispatch next w t r), dispatch-shrinks w t r)

  pub pump_for-shrinks : (n : ℕ) (p : WorkerPool V) → length (pump_for n p).queue ≤ length p.queue
  unfolding pump_for pump_round
  pump_for-shrinks zero p = omega arith
  pump_for-shrinks (suc n) p =
      pump_step-shrinks (pump_for n) (pump_for-shrinks n) p p.queue (is_closed p.state)
        (acquire_worker p) refl

  abbrev SameState : WorkerPool V → Option (ℕ × WorkerPool V) → Type 0
  SameState p none = Unit
  SameState p (some (w, q)) = q.state ≡ p.state

  acquire_worker-SameState : (p : WorkerPool V) → SameState p (acquire_worker p)
  acquire_worker-SameState p = elim (List-cases p.idle) [
    | inr (w, (ws, e)) ↦ subst (SameState p) (sym (acquire_worker_pop p w ws e)) refl
    | inl e ↦ elim (Bool-cases (leb p.size (length p.workers))) [
      | inl full ↦ subst (SameState p) (sym (acquire_worker_full p e full)) tt
      | inr less ↦ subst (SameState p) (sym (acquire_worker_spawn p e less)) refl
    ]
  ]

  module _ (next : WorkerPool V → WorkerPool V)
      (quiets : (p : WorkerPool V) → IsQuiet p → IsQuiet (next p)) where
    settle-IsQuiet : (p : WorkerPool V) → IsQuiet p → IsQuiet (settle_drain_if_idle p)
    unfolding settle_drain_if_idle
    settle-IsQuiet p quiet =
        elim (Bool-cases (is_draining p.state && (is_empty p.queue && is_empty (busy p.workers)))) [
          | inl e ↦
              let no_queue : p.queue ≡ [] = nothing_left p.queue (ground arith) in
              rw e (λ h. (no_queue, refl))
          | inr e ↦ rw e quiet
        ]

    pub retire-IsQuiet : (w : ℕ) (p : WorkerPool V) → IsQuiet p → IsQuiet (retire next w p)
    unfolding retire remove
    retire-IsQuiet w p quiet = elim (Option-cases (current_of w p.workers)) [
      | inl e ↦ rw (e, retire) quiet
      | inr (x, e) ↦
          let q = record p { workers = remove w p.workers; idle = splice w p.idle } in
          rw (e, retire)
            (settle-IsQuiet (next q) (quiets q λ h. ((quiet h).0, ap (remove w) (quiet h).1)))
    ]

    pub release-IsQuiet : (w : ℕ) (p : WorkerPool V) → IsQuiet p → IsQuiet (release next w p)
    unfolding release
    release-IsQuiet w p quiet = elim (Option-cases (current_of w p.workers)) [
      | inl e ↦ rw (e, release) quiet
      | inr (x, e) ↦ elim (Bool-cases (is_closed p.state)) [
        | inl f ↦ rw (e, f, release) (retire-IsQuiet w p quiet)
        | inr f ↦
            let q = record p { idle = w ∷ p.idle } in
            rw (e, f, release) (settle-IsQuiet (next q) (quiets q quiet))
      ]
    ]

    pub dispatch-IsQuiet :
        (w : ℕ) (t : QueuedTask) (p : WorkerPool V)
        → is_closed p.state ≡ false
        → IsQuiet (dispatch next w t p)
    unfolding dispatch
    dispatch-IsQuiet w t p open_still = elim (Bool-cases t.cloneable) [
      | inl e ↦ rw (e, dispatch) (λ h. absurd (ground (arith, open_still, h)))
      | inr e ↦
          rw (e, dispatch)
            (release-IsQuiet w (answered w (in_flight t p) not_cloneable (posted w t p))
              λ h. absurd (ground (arith, open_still, h)))
    ]

    pump_step-IsQuiet :
        (p : WorkerPool V) (ts : List QueuedTask) (b : Bool) (o : Option (ℕ × WorkerPool V))
        → is_closed p.state ≡ b
        → SameState p o
        → IsQuiet p
        → IsQuiet (pump_step next p ts b o)
    unfolding pump_step
    pump_step-IsQuiet p [] b o e a quiet = quiet
    pump_step-IsQuiet p (t ∷ ts) true o e a quiet = quiet
    pump_step-IsQuiet p (t ∷ ts) false none e a quiet = quiet
    pump_step-IsQuiet p (t ∷ ts) false (some (w, q)) e a quiet =
        let r = record q { queue = ts } in
        quiets (dispatch next w t r) (dispatch-IsQuiet w t r (ap (λ st. is_closed st) a ∙ e))

  pub pump_for-IsQuiet : (n : ℕ) (p : WorkerPool V) → IsQuiet p → IsQuiet (pump_for n p)
  unfolding pump_for pump_round
  pump_for-IsQuiet zero p quiet = quiet
  pump_for-IsQuiet (suc n) p quiet =
      pump_step-IsQuiet (pump_for n) (pump_for-IsQuiet n) p p.queue (is_closed p.state)
        (acquire_worker p) refl (acquire_worker-SameState p) quiet

  pub pump-IsQuiet : (p : WorkerPool V) → IsQuiet p → IsQuiet (pump p)
  unfolding pump
  pump-IsQuiet p quiet = pump_for-IsQuiet (length p.queue) p quiet
