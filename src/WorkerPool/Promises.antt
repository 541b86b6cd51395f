-- ===== src/WorkerPool/Promises.antt =====
-- src/workers/worker-pool.ts: what a pool promises its callers, from its constructor on.
use boilerplate_express_ts.Prelude.{
  ℕ, suc, ◌+◌, ◌≤◌, ◌≡◌, ◌≢◌, ◌⊎◌, inl, inr, refl, ap, true, false, none, some, List, [], ◌∷◌, leb,
  ◌==◌, length, arith, Bool-cases, Option-cases, count,
}
use boilerplate_express_ts.WorkerPool.{
  opened, is_closed, is_draining, InFlightTask, WorkerRecord, WorkerPool, current_of, busy,
  busy_callers, queued_callers, create,
}
use boilerplate_express_ts.WorkerPool.Workers.{IsNamed, current_low}
use boilerplate_express_ts.WorkerPool.Idle.{IsSound}
use boilerplate_express_ts.WorkerPool.Histories.{Event, after, after-IsSound, create-IsSound}
use boilerplate_express_ts.WorkerPool.Accounts.{answered_callers, total}
use boilerplate_express_ts.WorkerPool.Calls.{calls, after-total}
use boilerplate_express_ts.WorkerPool.Order.{IsOrderly}
use boilerplate_express_ts.WorkerPool.Orderly.{after-IsOrderly}

-- A task at work is held by a worker.
busy_worker :
    (lo n : ℕ) (rs : List WorkerRecord)
    → IsNamed lo rs n
    → 1 ≤ length (busy rs)
    → (w : ℕ) × (t : InFlightTask) × (lo ≤ w) × (current_of w rs ≡ some (some t))
unfolding current_of
busy_worker lo n [] h e = absurd (omega (arith, e))
busy_worker lo n (r ∷ rs) h e = elim (Option-cases r.current) [
  | inr (t, f) ↦
      let same : r.name == r.name ≡ true = ground arith in (r.name, t, h.0, rw same (ap some f))
  | inl f ↦
      let (w, t, above, found) = busy_worker (suc r.name) n rs h.1 (ground (arith, e, f)) in
      let other : r.name == w ≡ false = ground (arith, above) in
      (w, t, omega (arith, above, h.0), rw other found)
]

later :
    (r : WorkerRecord) (rs : List WorkerRecord) (n : ℕ) (t : InFlightTask)
    → IsNamed (suc r.name) rs n
    → ((i : ℕ) → current_of i (r ∷ rs) ≢ some none)
    → (i : ℕ) → current_of i rs ≢ some none
unfolding current_of
later r rs n t h free i g = elim (Bool-cases (leb i r.name)) [
  | inl low ↦
      let gone : current_of i rs ≡ none = current_low i (suc r.name) n rs h (ground (arith, low)) in
      ground (arith, gone, g)
  | inr high ↦ let other : r.name == i ≡ false = ground (arith, high) in free i (rw other g)
]

-- With no worker free, every worker holds a task.
all_busy :
    (lo n : ℕ) (rs : List WorkerRecord)
    → IsNamed lo rs n
    → ((i : ℕ) → current_of i rs ≢ some none)
    → length (busy rs) ≡ length rs
unfolding current_of
all_busy lo n [] h free = refl
all_busy lo n (r ∷ rs) h free = elim (Option-cases r.current) [
  | inl f ↦
      let same : r.name == r.name ≡ true = ground arith in
      absurd (free r.name (rw same (ap some f)))
  | inr (t, f) ↦ rw f (ap suc (all_busy (suc r.name) n rs h.1 (later r rs n t h.1 free)))
]

module _ {V : Type 0} where
  pub create-IsOrderly :
      (size max_queue_depth : ℕ) (p : WorkerPool V)
      → create size max_queue_depth ≡ some p
      → IsOrderly p
  unfolding create
  create-IsOrderly size max_queue_depth p h = elim (Bool-cases (size == 0)) [
    | inl e ↦ absurd (ground (arith, h))
    | inr e ↦
        let quiet : p.queue ≡ [] = ground (arith, h) in
        let starts : p.state ≡ opened = ground (arith, h) in
        record {
          served = inl quiet;
          quiet = λ g. absurd (ground (arith, g, starts));
          lively = ground (arith, starts);
        }
  ]

  module _ (q : WorkerPool V) (s : IsSound none q) (k : IsOrderly q) where
    every_worker_busy : q.idle ≡ [] → q.size ≤ length q.workers → length (busy q.workers) ≡ q.size
    every_worker_busy no_idle spawned =
        let none_free : (i : ℕ) → current_of i q.workers ≢ some none = λ i g. elim (s.listed i g) [
          | inl bad ↦ ground (arith, bad)
          | inr m ↦ ground (arith, no_idle, m)
        ] in
        let counts = all_busy 0 q.next_name q.workers s.named none_free in
        omega (arith, counts, spawned, s.bounded)

    unserved : (q.queue ≡ []) ⊎ (is_closed q.state ≡ true) ⊎ (length (busy q.workers) ≡ q.size)
    unserved = elim k.served [
      | inl e ↦ inl e
      | inr more ↦ elim more [
        | inl shut ↦ inr (inl shut)
        | inr (no_idle, spawned) ↦ inr (inr (every_worker_busy no_idle spawned))
      ]
    ]

    one_busy : is_draining q.state ≡ true → 1 ≤ length (busy q.workers)
    one_busy drains = elim unserved [
      | inl e ↦ ground (arith, k.lively, drains, e)
      | inr (inl shut) ↦ absurd (ground (arith, drains, shut))
      | inr (inr counts) ↦ omega (arith, counts, s.positive)
    ]

    pub draining_busy :
        is_draining q.state ≡ true
        → (w : ℕ) × (t : InFlightTask) × (current_of w q.workers ≡ some (some t))
    draining_busy drains =
        let (w, t, above, found) = busy_worker 0 q.next_name q.workers s.named (one_busy drains) in
        (w, t, found)

  create-total :
      (size max_queue_depth c : ℕ) (p : WorkerPool V)
      → create size max_queue_depth ≡ some p
      → total c p ≡ 0
  unfolding create
  create-total size max_queue_depth c p h = ground (arith, h)

  module _ (size max_queue_depth : ℕ) (p : WorkerPool V)
      (made : create size max_queue_depth ≡ some p) (es : List (Event V)) where
    history-IsSound : IsSound none (after p es)
    history-IsSound = after-IsSound es p (create-IsSound size max_queue_depth p made)

    history-IsOrderly : IsOrderly (after p es)
    history-IsOrderly =
        after-IsOrderly es p (create-IsSound size max_queue_depth p made)
          (create-IsOrderly size max_queue_depth p made)

    -- In a pool that was created, after any history: the workers are no more than its size, the tasks
    -- that wait no more than its depth; and while a task waits in a pool that is not closed, as many
    -- tasks are at work as the pool has workers.
    pub waiting_means_full :
        (length (after p es).workers ≤ (after p es).size)
        × (length (after p es).queue ≤ (after p es).max_queue_depth)
        × (((after p es).queue ≡ [])
            ⊎ (is_closed (after p es).state ≡ true)
            ⊎ (length (busy (after p es).workers) ≡ (after p es).size))
    waiting_means_full = (
      history-IsSound.bounded,
      history-IsSound.depth,
      unserved (after p es) history-IsSound history-IsOrderly,
    )

    -- After any history of a pool that was created, a caller's calls are as many as its answers, its
    -- tasks in the queue and its tasks at work together: no call is answered twice, and none is lost.
    pub calls-answers :
        (c : ℕ)
        → count c (answered_callers (after p es).answers)
            + (count c (queued_callers (after p es).queue)
                + count c (busy_callers (busy (after p es).workers)))
          ≡ calls c es
    calls-answers c = omega (
      arith,
      after-total c es p (create-IsSound size max_queue_depth p made),
      create-total size max_queue_depth c p made,
    )

    -- Once a pool that was created is closed, after any history, each caller has an answer for each of
    -- its calls.
    pub closed_answers_all :
        (c : ℕ)
        → is_closed (after p es).state ≡ true
        → count c (answered_callers (after p es).answers) ≡ calls c es
    closed_answers_all c shut =
        let (no_queue, no_workers) = history-IsOrderly.quiet shut in
        omega (
          arith,
          calls-answers c,
          ap (λ ts. count c (queued_callers ts)) no_queue,
          ap (λ rs. count c (busy_callers (busy rs))) no_workers,
        )
