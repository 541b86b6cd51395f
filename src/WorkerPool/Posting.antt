-- ===== src/WorkerPool/Posting.antt =====
-- A worker of src/workers/worker-pool.ts is given a task, gives it back, and is retired or released.
use boilerplate_express_ts.Prelude.{
  ℕ, ◌≤◌, ◌≡◌, ◌≢◌, inl, inr, sym, ap, subst, ◌∙◌, ◌&&◌, Option, none, some, List, ◌∷◌, ◌==◌,
  length, arith, Bool-cases, Option-cases, All-mono, All-zip,
}
use boilerplate_express_ts.WorkerPool.{
  WorkerPoolState, Drained, is_closed, is_draining, is_empty, InFlightTask, QueuedTask, WorkerPool,
  Answer, current_of, set_current, remove, splice, busy, settle_drain_if_idle, retire, release,
}
use boilerplate_express_ts.WorkerPool.Workers.{
  IsNamed-set_current, IsNamed-remove, current-set_self, current-set_other, current-remove_other,
  current-remove_self, length-set_current, length-remove,
}
use boilerplate_express_ts.WorkerPool.Idle.{
  All-splice, splice-AreDistinct, splice_absent, member-splice, IsSound, IsHeld,
}

module _ {V : Type 0} where
  -- A held worker is given a task.
  pub post-IsSound :
      (w : ℕ) (t : InFlightTask) (p : WorkerPool V)
      → IsSound (some w) p
      → IsHeld w p
      → IsSound none (record p { workers = set_current w (some t) p.workers })
  post-IsSound w t p s k =
      let mine = current-set_self w (some t) none p.workers k.idles in
      let others = λ (i : ℕ) (h : i ≢ w). current-set_other w i (some t) p.workers h in
      record {
        bounded = rw (length-set_current w (some t) p.workers) s.bounded;
        depth = s.depth;
        positive = s.positive;
        named = IsNamed-set_current w 0 p.next_name (some t) p.workers s.named;
        free =
            All-zip (λ i. current_of i p.workers ≡ some none) (λ i. i ≢ w)
              (λ i. current_of i (set_current w (some t) p.workers) ≡ some none) p.idle
              (λ i idles apart. others i apart ∙ idles) s.free k.taken;
        distinct = s.distinct;
        listed = λ i h. elim (Bool-cases (i == w)) [
          | inl same ↦
              let at : i ≡ w = ground arith in
              let now =
                subst (λ j. current_of j (set_current w (some t) p.workers) ≡ some none) at h in
              cc
          | inr other ↦
              let apart : i ≢ w = λ same. ground (arith, same) in
              elim (s.listed i (sym (others i apart) ∙ h)) [
                | inl held ↦ absurd (ground (arith, held))
                | inr m ↦ inr m
              ]
        ];
      }

  -- A worker's task is taken back.
  pub unpost-IsSound :
      (w : ℕ) (t : InFlightTask) (p : WorkerPool V)
      → IsSound none p
      → current_of w p.workers ≡ some (some t)
      → IsSound (some w) (record p { workers = set_current w none p.workers })
        × IsHeld w (record p { workers = set_current w none p.workers })
  unpost-IsSound w t p s k =
      let mine = current-set_self w none (some t) p.workers k in
      let others = λ (i : ℕ) (h : i ≢ w). current-set_other w i none p.workers h in
      let differ : (i : ℕ) → current_of i p.workers ≡ some none → i ≢ w = λ i idles same.
        let now = subst (λ j. current_of j p.workers ≡ some none) same idles in
        ground (arith, now, k) in
      (
        record {
          bounded = rw (length-set_current w none p.workers) s.bounded;
          depth = s.depth;
          positive = s.positive;
          named = IsNamed-set_current w 0 p.next_name none p.workers s.named;
          free =
              All-mono (λ i. current_of i p.workers ≡ some none)
                (λ i. current_of i (set_current w none p.workers) ≡ some none) p.idle
                (λ i idles. others i (differ i idles) ∙ idles) s.free;
          distinct = s.distinct;
          listed = λ i h. elim (Bool-cases (i == w)) [
            | inl same ↦ inl (ap some (ground arith))
            | inr other ↦
                let away : i ≢ w = λ same. ground (arith, same) in
                elim (s.listed i (sym (others i away) ∙ h)) [ inl bad ↦ cc | inr m ↦ inr m ]
          ];
        },
        record {
          idles = mine;
          taken =
              All-mono (λ i. current_of i p.workers ≡ some none) (λ i. i ≢ w) p.idle differ s.free;
        },
      )

  -- A worker is taken out, whether it was held or idle.
  pub remove-IsSound :
      (w : ℕ) (held : Option ℕ) (p : WorkerPool V)
      → ((i : ℕ) → held ≡ some i → i ≡ w)
      → IsSound held p
      → IsSound none (record p { workers = remove w p.workers; idle = splice w p.idle })
  remove-IsSound w held p only s =
      let others = λ (i : ℕ) (h : i ≢ w). current-remove_other w i p.workers h in
      record {
        bounded = omega (arith, s.bounded, length-remove w p.workers);
        depth = s.depth;
        positive = s.positive;
        named = IsNamed-remove w 0 p.next_name p.workers s.named;
        free =
            All-zip (λ i. current_of i p.workers ≡ some none) (λ i. i ≢ w)
              (λ i. current_of i (remove w p.workers) ≡ some none) (splice w p.idle)
              (λ i idles apart. others i apart ∙ idles)
              (All-splice (λ i. current_of i p.workers ≡ some none) w p.idle s.free)
              (splice_absent w p.idle s.distinct);
        distinct = splice-AreDistinct w p.idle s.distinct;
        listed = λ i h. elim (Bool-cases (i == w)) [
          | inl same ↦
              let at : i ≡ w = ground arith in
              let now = subst (λ j. current_of j (remove w p.workers) ≡ some none) at h in
              let gone = current-remove_self w 0 p.next_name p.workers s.named in cc
          | inr other ↦
              let apart : i ≢ w = λ same. ground (arith, same) in
              elim (s.listed i (sym (others i apart) ∙ h)) [
                | inl mine ↦ absurd (apart (only i mine))
                | inr m ↦ inr (member-splice w i p.idle apart m)
              ]
        ];
      }

  pub settle-IsSound : (p : WorkerPool V) → IsSound none p → IsSound none (settle_drain_if_idle p)
  unfolding settle_drain_if_idle current_of
  settle-IsSound p s =
      elim (Bool-cases (is_draining p.state && (is_empty p.queue && is_empty (busy p.workers)))) [
        | inl e ↦ rw e (record {
          bounded = omega arith;
          depth = s.depth;
          positive = s.positive;
          named = omega arith;
          free = tt;
          distinct = tt;
          listed = λ i h. absurd (ground (arith, h));
        })
        | inr e ↦ rw e s
      ]

  -- Task numbers, answers, the state and the promise of `drain` are no part of it.
  abbrev pub relabel :
      WorkerPoolState → ℕ → Drained → List (ℕ × Answer V) → WorkerPool V → WorkerPool V
  relabel state next_task_id drained answers p = record p {
    state = state;
    next_task_id = next_task_id;
    drained = drained;
    answers = answers;
  }

  pub relabel-IsSound :
      (held : Option ℕ) (st : WorkerPoolState) (n : ℕ) (d : Drained) (a : List (ℕ × Answer V))
      (p : WorkerPool V)
      → IsSound held p
      → IsSound held (relabel st n d a p)
  relabel-IsSound held st n d a p s = record {
    bounded = s.bounded;
    depth = s.depth;
    positive = s.positive;
    named = s.named;
    free = s.free;
    distinct = s.distinct;
    listed = s.listed;
  }

  pub relabel-IsHeld :
      (w : ℕ) (st : WorkerPoolState) (n : ℕ) (d : Drained) (a : List (ℕ × Answer V))
      (p : WorkerPool V)
      → IsHeld w p
      → IsHeld w (relabel st n d a p)
  relabel-IsHeld w st n d a p k = record { idles = k.idles; taken = k.taken }

  -- The queue may be exchanged for one that fits.
  pub requeue-IsSound :
      (held : Option ℕ) (ts : List QueuedTask) (p : WorkerPool V)
      → length ts ≤ p.max_queue_depth
      → IsSound held p
      → IsSound held (record p { queue = ts })
  requeue-IsSound held ts p h s = record {
    bounded = s.bounded;
    depth = h;
    positive = s.positive;
    named = s.named;
    free = s.free;
    distinct = s.distinct;
    listed = s.listed;
  }

  pub idle_again-IsSound :
      (w : ℕ) (p : WorkerPool V)
      → IsSound (some w) p
      → IsHeld w p
      → IsSound none (record p { idle = w ∷ p.idle })
  idle_again-IsSound w p s k = record {
    bounded = s.bounded;
    depth = s.depth;
    positive = s.positive;
    named = s.named;
    free = (k.idles, s.free);
    distinct = (k.taken, s.distinct);
    listed = λ i h. elim (s.listed i h) [
      | inl mine ↦ inr (ground (arith, mine))
      | inr m ↦ inr (ground arith)
    ];
  }

  module _ (next : WorkerPool V → WorkerPool V)
      (keeps : (p : WorkerPool V) → IsSound none p → IsSound none (next p)) where
    pub retire-IsSound :
        (w : ℕ) (held : Option ℕ) (p : WorkerPool V)
        → ((i : ℕ) → held ≡ some i → i ≡ w)
        → (current_of w p.workers ≢ none)
        → IsSound held p
        → IsSound none (retire next w p)
    unfolding retire
    retire-IsSound w held p only here s = elim (Option-cases (current_of w p.workers)) [
      | inl e ↦ absurd (here e)
      | inr (c, e) ↦
          rw (e, retire)
            (settle-IsSound
              (next (record p { workers = remove w p.workers; idle = splice w p.idle }))
              (keeps (record p { workers = remove w p.workers; idle = splice w p.idle })
                (remove-IsSound w held p only s)))
    ]

    pub release-IsSound :
        (w : ℕ) (p : WorkerPool V)
        → IsSound (some w) p
        → IsHeld w p
        → IsSound none (release next w p)
    unfolding release
    release-IsSound w p s k =
        let q = record p { idle = w ∷ p.idle } in
        elim (Bool-cases (is_closed p.state)) [
          | inl e ↦
              rw (k.idles, e, release)
                (retire-IsSound w (some w) p (λ i h. ground (arith, h))
                  (λ gone. ground (arith, gone, k.idles)) s)
          | inr e ↦
              rw (k.idles, e, release)
                (settle-IsSound (next q) (keeps q (idle_again-IsSound w p s k)))
        ]
