-- ===== src/WorkerPool/Drains.antt =====
-- src/workers/worker-pool.ts: how many tasks wait or are at work.
use boilerplate_express_ts.Prelude.{
  ℕ, zero, suc, ◌+◌, ◌≤◌, ◌<◌, ◌≡◌, inl, inr, refl, sym, ap, subst, ◌∙◌, Bool, true, false, ◌&&◌,
  Option, none, some, List, [], ◌∷◌, leb, ◌==◌, length, arith, Bool-cases, Option-cases, List-cases,
}
use boilerplate_express_ts.WorkerPool.{
  WorkerPoolState, opened, draining, closed, is_closed, is_draining, is_open, is_empty,
  InFlightTask, WorkerRecord, QueuedTask, WorkerPool, Answer, not_cloneable, timed_out, current_of,
  set_current, remove, splice, busy, acquire_worker, settle_drain_if_idle, retire, release,
  dispatch, pump_step, pump_round, pump_for, pump, answered, in_flight, posted, expire, on_timeout,
}
use boilerplate_express_ts.WorkerPool.Idle.{
  acquire_worker_full, acquire_worker_pop, acquire_worker_spawn, busy-append_new,
}

busy-remove : (w : ℕ) (rs : List WorkerRecord) → length (busy (remove w rs)) ≤ length (busy rs)
unfolding remove
busy-remove w [] = omega arith
busy-remove w (r ∷ rs) = ground (arith, busy-remove w rs)

busy-post :
    (w : ℕ) (t : InFlightTask) (rs : List WorkerRecord)
    → length (busy (set_current w (some t) rs)) ≤ suc (length (busy rs))
unfolding set_current
busy-post w t [] = omega arith
busy-post w t (r ∷ rs) = ground (arith, busy-post w t rs)

busy-free :
    (w : ℕ) (rs : List WorkerRecord) → length (busy (set_current w none rs)) ≤ length (busy rs)
unfolding set_current
busy-free w [] = omega arith
busy-free w (r ∷ rs) = ground (arith, busy-free w rs)

pub busy-settle :
    (w : ℕ) (t : InFlightTask) (rs : List WorkerRecord)
    → current_of w rs ≡ some (some t)
    → suc (length (busy (set_current w none rs))) ≡ length (busy rs)
unfolding set_current current_of
busy-settle w t [] h = ground (arith, h)
busy-settle w t (r ∷ rs) h = ground (arith, h, busy-settle w t rs)

draining_not_open : (st : WorkerPoolState) → is_draining st ≡ true → is_open st ≡ false
draining_not_open opened h = cc
draining_not_open draining h = refl
draining_not_open closed h = refl

pub still_draining :
    (st : WorkerPoolState) → is_open st ≡ false → is_closed st ≡ false → is_draining st ≡ true
still_draining opened h g = cc
still_draining draining h g = refl
still_draining closed h g = cc

module _ {V : Type 0} where
  -- The tasks that wait or are at work.
  abbrev pub left : WorkerPool V → ℕ
  left p = length p.queue + length (busy p.workers)

  -- From `p` to `q` the tasks grow by `n` at most, and whether the pool is open stays.
  record Grows (n : ℕ) (p q : WorkerPool V) : Type 0 where
    tasks : left q ≤ n + left p
    open_still : is_open q.state ≡ is_open p.state

  settle-Grows : (p : WorkerPool V) → Grows 0 p (settle_drain_if_idle p)
  unfolding settle_drain_if_idle
  settle-Grows p =
      elim (Bool-cases (is_draining p.state && (is_empty p.queue && is_empty (busy p.workers)))) [
        | inl e ↦ rw e (record {
          tasks = omega arith;
          open_still = sym (draining_not_open p.state (ground (arith, e)));
        })
        | inr e ↦ rw e (record { tasks = omega arith; open_still = refl })
      ]

  -- Acquiring a worker changes neither the state nor the tasks.
  abbrev Spared : WorkerPool V → Option (ℕ × WorkerPool V) → Type 0
  Spared p none = Unit
  Spared p (some (w, q)) = (q.state ≡ p.state) × (busy q.workers ≡ busy p.workers)

  acquire_worker-Spared : (p : WorkerPool V) → Spared p (acquire_worker p)
  acquire_worker-Spared p = elim (List-cases p.idle) [
    | inr (w, (ws, e)) ↦ subst (Spared p) (sym (acquire_worker_pop p w ws e)) (refl, refl)
    | inl e ↦ elim (Bool-cases (leb p.size (length p.workers))) [
      | inl full ↦ subst (Spared p) (sym (acquire_worker_full p e full)) tt
      | inr less ↦
          subst (Spared p) (sym (acquire_worker_spawn p e less))
            (refl, busy-append_new p.next_name p.workers)
    ]
  ]

  Grows-trans : {n : ℕ} {p q r : WorkerPool V} → Grows n p q → Grows 0 q r → Grows n p r
  Grows-trans g h = record {
    tasks = omega (arith, g.tasks, h.tasks);
    open_still = h.open_still ∙ g.open_still;
  }

  module _ (next : WorkerPool V → WorkerPool V)
      (wanes : (p : WorkerPool V) → Grows 0 p (next p)) where
    retire-Grows : (w : ℕ) (p : WorkerPool V) → Grows 0 p (retire next w p)
    unfolding retire
    retire-Grows w p = elim (Option-cases (current_of w p.workers)) [
      | inl e ↦ rw (e, retire) (record { tasks = omega arith; open_still = refl })
      | inr (x, e) ↦
          let q = record p { workers = remove w p.workers; idle = splice w p.idle } in
          let removed : Grows 0 p q = record {
            tasks = omega (arith, busy-remove w p.workers);
            open_still = refl;
          } in
          rw (e, retire) (Grows-trans removed (Grows-trans (wanes q) (settle-Grows (next q))))
    ]

    release-Grows : (w : ℕ) (p : WorkerPool V) → Grows 0 p (release next w p)
    unfolding release
    release-Grows w p = elim (Option-cases (current_of w p.workers)) [
      | inl e ↦ rw (e, release) (record { tasks = omega arith; open_still = refl })
      | inr (x, e) ↦ elim (Bool-cases (is_closed p.state)) [
        | inl f ↦ rw (e, f, release) (retire-Grows w p)
        | inr f ↦
            let q = record p { idle = w ∷ p.idle } in
            let pushed : Grows 0 p q = record { tasks = omega arith; open_still = refl } in
            rw (e, f, release) (Grows-trans pushed (Grows-trans (wanes q) (settle-Grows (next q))))
      ]
    ]

    dispatch-Grows : (w : ℕ) (t : QueuedTask) (p : WorkerPool V) → Grows 1 p (dispatch next w t p)
    unfolding dispatch
    dispatch-Grows w t p =
        let posts : Grows 1 p (posted w t p) = record {
          tasks = omega (arith, busy-post w (in_flight t p) p.workers);
          open_still = refl;
        } in
        elim (Bool-cases t.cloneable) [
          | inl e ↦ rw (e, dispatch) posts
          | inr e ↦
              let q = posted w t p in
              let freed = answered w (in_flight t p) not_cloneable q in
              let frees : Grows 0 q freed = record {
                tasks = omega (arith, busy-free w q.workers);
                open_still = refl;
              } in
              rw (e, dispatch) (Grows-trans posts (Grows-trans frees (release-Grows w freed)))
        ]

    pump_step-Grows :
        (p : WorkerPool V) (ts : List QueuedTask) (b : Bool) (o : Option (ℕ × WorkerPool V))
        → p.queue ≡ ts
        → Spared p o
        → Grows 0 p (pump_step next p ts b o)
    unfolding pump_step
    pump_step-Grows p [] b o e a = record { tasks = omega arith; open_still = refl }
    pump_step-Grows p (t ∷ ts) true o e a = record { tasks = omega arith; open_still = refl }
    pump_step-Grows p (t ∷ ts) false none e a = record { tasks = omega arith; open_still = refl }
    pump_step-Grows p (t ∷ ts) false (some (w, q)) e a =
        let r = record q { queue = ts } in
        let placed = Grows-trans (dispatch-Grows w t r) (wanes (dispatch next w t r)) in
        record {
          tasks = omega (arith, placed.tasks, ap (λ us. length us) e, ap (λ ts. length ts) a.1);
          open_still = placed.open_still ∙ ap (λ st. is_open st) a.0;
        }

  pump_for-Grows : (n : ℕ) (p : WorkerPool V) → Grows 0 p (pump_for n p)
  unfolding pump_for pump_round
  pump_for-Grows zero p = record { tasks = omega arith; open_still = refl }
  pump_for-Grows (suc n) p =
      pump_step-Grows (pump_for n) (pump_for-Grows n) p p.queue (is_closed p.state)
        (acquire_worker p) refl (acquire_worker-Spared p)

  pump-Grows : (p : WorkerPool V) → Grows 0 p (pump p)
  unfolding pump
  pump-Grows p = pump_for-Grows (length p.queue) p

  -- A timer that fires for the task at work ends it.
  pub expire-left :
      (w : ℕ) (t : InFlightTask) (p : WorkerPool V)
      → current_of w p.workers ≡ some (some t)
      → (left (on_timeout w t.id p) < left p)
        × (is_open (on_timeout w t.id p).state ≡ is_open p.state)
  unfolding on_timeout expire
  expire-left w t p h =
      let same : t.id == t.id ≡ true = ground arith in
      let late : Answer V = timed_out in
      let q = answered w t late p in
      let g = retire-Grows pump pump-Grows w q in
      rw (h, same) (omega (arith, g.tasks, busy-settle w t p.workers h), g.open_still)
