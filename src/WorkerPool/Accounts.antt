-- ===== src/WorkerPool/Accounts.antt =====
-- The tasks of src/workers/worker-pool.ts by their callers: the pump and what calls it.
use boilerplate_express_ts.Prelude.{
  ℕ, zero, suc, ◌+◌, ◌≤◌, ◌≡◌, inl, inr, refl, ap, ◌∙◌, Bool, true, false, ◌&&◌, Option, none, some,
  List, [], ◌∷◌, ◌++◌, length, arith, Bool-cases, count,
}
use boilerplate_express_ts.WorkerPool.{
  is_closed, is_draining, is_empty, InFlightTask, QueuedTask, WorkerPool, Answer, not_cloneable,
  current_of, remove, splice, busy, busy_callers, queued_callers, acquire_worker,
  settle_drain_if_idle, retire, release, dispatch, pump_step, pump_round, pump_for, pump, answered,
  in_flight, posted, refusals,
}
use boilerplate_express_ts.WorkerPool.Workers.{count-set_current, count-remove, current-set_self}
use boilerplate_express_ts.WorkerPool.Idle.{IsSound, IsHeld, Acquired, acquire_worker-Acquired}
use boilerplate_express_ts.WorkerPool.Posting.{remove-IsSound, idle_again-IsSound}
use boilerplate_express_ts.WorkerPool.Slots.{
  posted-IsSound, next_task-IsSound, dispatch-IsSound, pump_for-IsSound,
}
use boilerplate_express_ts.WorkerPool.Histories.{answered-IsSound}

pub count-queued :
    (c : ℕ) (ts us : List QueuedTask)
    → count c (queued_callers (ts ++ us))
      ≡ count c (queued_callers ts) + count c (queued_callers us)
count-queued c [] us = omega arith
count-queued c (t ∷ ts) us = omega (arith, count-queued c ts us)

no_busy : (ts : List InFlightTask) → is_empty ts ≡ true → ts ≡ []
no_busy [] h = refl
no_busy (t ∷ ts) h = cc

abbrev pub answered_callers : {V : Type 0} → List (ℕ × Answer V) → List ℕ
answered_callers [] = []
answered_callers ((c, a) ∷ more) = c ∷ answered_callers more

pub answered-refusals : (V : Type 0) (cs : List ℕ) → answered_callers (refusals {V = V} cs) ≡ cs
answered-refusals V [] = refl
answered-refusals V (c ∷ cs) = ap (λ ds. c ∷ ds) (answered-refusals V cs)

module _ {V : Type 0} where
  pub count-answered :
      (c : ℕ) (front back : List (ℕ × Answer V))
      → count c (answered_callers (front ++ back))
        ≡ count c (answered_callers front) + count c (answered_callers back)
  count-answered c [] back = omega arith
  count-answered c (a ∷ more) back = omega (arith, count-answered c more back)

  -- The answers to `c`, and its calls that are queued or at work.
  abbrev pub owed : ℕ → WorkerPool V → ℕ
  owed c p = count c (queued_callers p.queue) + count c (busy_callers (busy p.workers))

  abbrev pub total : ℕ → WorkerPool V → ℕ
  total c p = count c (answered_callers p.answers) + owed c p

  module _ (c : ℕ) where
    pub settle-total : (p : WorkerPool V) → total c (settle_drain_if_idle p) ≡ total c p
    unfolding settle_drain_if_idle
    settle-total p =
        elim (Bool-cases (is_draining p.state && (is_empty p.queue && is_empty (busy p.workers)))) [
          | inl e ↦
              let none_busy : busy p.workers ≡ [] = no_busy (busy p.workers) (ground arith) in
              rw (e, none_busy) refl
          | inr e ↦ rw e refl
        ]

    pub answered-total :
        (w : ℕ) (t : InFlightTask) (a : Answer V) (p : WorkerPool V)
        → current_of w p.workers ≡ some (some t)
        → total c (answered w t a p) ≡ total c p
    answered-total w t a p h = omega (
      arith,
      count-answered c p.answers ((t.caller, a) ∷ []),
      count-set_current c w none (some t) p.workers h,
    )

    module _ (next : WorkerPool V → WorkerPool V)
        (keeps : (p : WorkerPool V) → IsSound none p → IsSound none (next p))
        (same : (p : WorkerPool V) → IsSound none p → total c (next p) ≡ total c p) where
      pub retire-total :
          (w : ℕ) (held : Option ℕ) (p : WorkerPool V)
          → ((i : ℕ) → held ≡ some i → i ≡ w)
          → current_of w p.workers ≡ some none
          → IsSound held p
          → total c (retire next w p) ≡ total c p
      unfolding retire
      retire-total w held p only here s =
          let q = record p { workers = remove w p.workers; idle = splice w p.idle } in
          let kept = same q (remove-IsSound w held p only s) in
          let counts = count-remove c w none p.workers here in
          rw (here, retire) (settle-total (next q) ∙ kept ∙ omega (arith, counts))

      pub release-total :
          (w : ℕ) (p : WorkerPool V)
          → IsSound (some w) p
          → IsHeld w p
          → total c (release next w p) ≡ total c p
      unfolding release
      release-total w p s k =
          let q = record p { idle = w ∷ p.idle } in
          elim (Bool-cases (is_closed p.state)) [
            | inl e ↦
                rw (k.idles, e, release)
                  (retire-total w (some w) p (λ i h. ground (arith, h)) k.idles s)
            | inr e ↦
                rw (k.idles, e, release)
                  (settle-total (next q) ∙ same q (idle_again-IsSound w p s k))
          ]

      pub dispatch-total :
          (w : ℕ) (t : QueuedTask) (p : WorkerPool V)
          → IsSound (some w) p
          → IsHeld w p
          → total c (dispatch next w t p) ≡ total c p + count c (t.caller ∷ [])
      unfolding dispatch
      dispatch-total w t p s k =
          let task = in_flight t p in
          let fresh = posted w t p in
          let counts = count-set_current c w (some task) none p.workers k.idles in
          let sound : IsSound none fresh = posted-IsSound w t p s k in
          let mine = current-set_self w (some task) none p.workers k.idles in
          let (freed, held) = answered-IsSound w task not_cloneable fresh sound mine in
          elim (Bool-cases t.cloneable) [
            | inl e ↦ rw (e, dispatch) (omega (arith, counts))
            | inr e ↦
                rw (e, dispatch)
                  (release-total w (answered w task not_cloneable fresh) freed held
                    ∙ answered-total w task not_cloneable fresh mine
                    ∙ omega (arith, counts))
          ]

      pump_step-total :
          (p : WorkerPool V) (ts : List QueuedTask) (b : Bool) (o : Option (ℕ × WorkerPool V))
          → p.queue ≡ ts
          → IsSound none p
          → Acquired p o
          → total c (pump_step next p ts b o) ≡ total c p
      unfolding pump_step
      pump_step-total p [] b o e s a = refl
      pump_step-total p (t ∷ ts) true o e s a = refl
      pump_step-total p (t ∷ ts) false none e s a = refl
      pump_step-total p (t ∷ ts) false (some (w, q)) e s a =
          let fits : length ts ≤ p.max_queue_depth =
            omega (arith, ap (λ us. length us) e, s.depth) in
          let (sound, held) = next_task-IsSound w ts p q fits a in
          let r = record q { queue = ts } in
          same (dispatch next w t r) (dispatch-IsSound next keeps w t r sound held)
          ∙ dispatch-total w t r sound held
          ∙ omega (
            arith,
            ap (λ (x : List (ℕ × Answer V)). count c (answered_callers x)) a.answers,
            ap (λ x. count c (busy_callers x)) a.at_work,
            ap (λ x. count c (queued_callers x)) e,
          )

      pump_round-total :
          (p : WorkerPool V) → IsSound none p → total c (pump_round next p) ≡ total c p
      unfolding pump_round
      pump_round-total p s =
          pump_step-total p p.queue (is_closed p.state) (acquire_worker p) refl s
            (acquire_worker-Acquired p s)

    pump_for-total :
        (n : ℕ) (p : WorkerPool V) → IsSound none p → total c (pump_for n p) ≡ total c p
    unfolding pump_for
    pump_for-total zero p s = refl
    pump_for-total (suc n) p s =
        pump_round-total (pump_for n) (pump_for-IsSound n) (pump_for-total n) p s

    pub pump-total : (p : WorkerPool V) → IsSound none p → total c (pump p) ≡ total c p
    unfolding pump
    pump-total p s = pump_for-total (length p.queue) p s
