-- ===== src/WorkerPool/Idle.antt =====
-- Which workers of src/workers/worker-pool.ts are idle, and what `acquireWorker` answers.
use boilerplate_express_ts.Prelude.{
  ℕ, suc, ◌≤◌, ◌≡◌, ◌≢◌, ◌⊎◌, inl, inr, refl, sym, ap, subst, ◌∙◌, Bool, true, false, ◌||◌, Option,
  none, some, List, [], ◌∷◌, ◌++◌, leb, ◌==◌, length, length-append, arith, Bool-cases, All,
  List-cases,
}
use boilerplate_express_ts.WorkerPool.{
  WorkerRecord, WorkerPool, current_of, splice, busy, acquire_worker,
}
use boilerplate_express_ts.WorkerPool.Workers.{
  IsNamed, IsNamed-append, current-append_other, current-append_new,
}

abbrev pub member : ℕ → List ℕ → Bool
member i [] = false
member i (j ∷ js) = j == i || member i js

abbrev pub AreDistinct : List ℕ → Type 0
AreDistinct [] = Unit
AreDistinct (i ∷ is) = All (λ j. j ≢ i) is × AreDistinct is

pub All-splice : (P : ℕ → Type 0) (w : ℕ) (is : List ℕ) → All P is → All P (splice w is)
unfolding splice
All-splice P w [] h = tt
All-splice P w (i ∷ is) h = elim (Bool-cases (i == w)) [
  | inl e ↦ rw e h.1
  | inr e ↦ rw e (h.0, All-splice P w is h.1)
]

pub splice-AreDistinct : (w : ℕ) (is : List ℕ) → AreDistinct is → AreDistinct (splice w is)
unfolding splice
splice-AreDistinct w [] h = tt
splice-AreDistinct w (i ∷ is) h = elim (Bool-cases (i == w)) [
  | inl e ↦ rw e h.1
  | inr e ↦ rw e (All-splice (λ j. j ≢ i) w is h.0, splice-AreDistinct w is h.1)
]

pub splice_absent : (w : ℕ) (is : List ℕ) → AreDistinct is → All (λ j. j ≢ w) (splice w is)
unfolding splice
splice_absent w [] h = tt
splice_absent w (i ∷ is) h = elim (Bool-cases (i == w)) [
  | inl e ↦ let same : i ≡ w = ground arith in rw e (subst (λ v. All (λ j. j ≢ v) is) same h.0)
  | inr e ↦ rw e ((λ same. ground (arith, same)), splice_absent w is h.1)
]

pub member-splice :
    (w i : ℕ) (is : List ℕ) → i ≢ w → member i is ≡ true → member i (splice w is) ≡ true
unfolding splice
member-splice w i [] h m = m
member-splice w i (j ∷ js) h m = ground (arith, member-splice w i js)

pub busy-append_new :
    (n : ℕ) (rs : List WorkerRecord)
    → busy (rs ++ record { name = n; current = none } ∷ []) ≡ busy rs
busy-append_new n [] = refl
busy-append_new n (r ∷ rs) = ground (arith, busy-append_new n rs)

module _ {V : Type 0} where
  -- `held` is a worker that was taken from `idle` and holds no task yet.
  pub record IsSound (held : Option ℕ) (p : WorkerPool V) : Type 0 where
    pub bounded : length p.workers ≤ p.size
    pub depth : length p.queue ≤ p.max_queue_depth
    pub positive : 1 ≤ p.size
    pub named : IsNamed 0 p.workers p.next_name
    pub free : All (λ i. current_of i p.workers ≡ some none) p.idle
    pub distinct : AreDistinct p.idle
    pub listed :
        (i : ℕ) → current_of i p.workers ≡ some none → (held ≡ some i) ⊎ (member i p.idle ≡ true)

  pub record IsHeld (w : ℕ) (p : WorkerPool V) : Type 0 where
    pub idles : current_of w p.workers ≡ some none
    pub taken : All (λ i. i ≢ w) p.idle

  -- A worker `w` was acquired, and `q` is the pool that is left of `p`.
  pub record Granted (p : WorkerPool V) (w : ℕ) (q : WorkerPool V) : Type 0 where
    pub sound : IsSound (some w) q
    pub held : IsHeld w q
    pub queue : q.queue ≡ p.queue
    pub state : q.state ≡ p.state
    pub answers : q.answers ≡ p.answers
    pub at_work : busy q.workers ≡ busy p.workers
    pub depth : q.max_queue_depth ≡ p.max_queue_depth

  -- What `acquireWorker` answers.
  abbrev pub Acquired : WorkerPool V → Option (ℕ × WorkerPool V) → Type 0
  Acquired p none = (p.idle ≡ []) × (p.size ≤ length p.workers)
  Acquired p (some (w, q)) = Granted p w q

  pop-Acquired :
      (p : WorkerPool V) (w : ℕ) (ws : List ℕ)
      → IsSound none p
      → p.idle ≡ w ∷ ws
      → Acquired p (some (w, record p { idle = ws }))
  pop-Acquired p w ws s e =
      let free : All (λ i. current_of i p.workers ≡ some none) (w ∷ ws) =
        subst (λ is. All (λ i. current_of i p.workers ≡ some none) is) e s.free in
      let distinct : AreDistinct (w ∷ ws) = subst AreDistinct e s.distinct in
      let listed : (i : ℕ)
          → current_of i p.workers ≡ some none
          → (some w ≡ some i) ⊎ (member i ws ≡ true) =
        λ i h.
          let seen : member i (w ∷ ws) ≡ true = elim (s.listed i h) [
            | inl bad ↦ cc
            | inr m ↦ subst (λ is. member i is ≡ true) e m
          ] in
          elim (Bool-cases (w == i)) [
            | inl same ↦ inl (ap some (ground arith))
            | inr other ↦ inr (ground arith)
          ] in
      record {
        sound = record {
          bounded = s.bounded;
          depth = s.depth;
          positive = s.positive;
          named = s.named;
          free = free.1;
          distinct = distinct.1;
          listed = listed;
        };
        held = record { idles = free.0; taken = distinct.0 };
        queue = refl;
        state = refl;
        answers = refl;
        at_work = refl;
        depth = refl;
      }

  spawn-Acquired :
      (p : WorkerPool V)
      → IsSound none p
      → p.idle ≡ []
      → leb p.size (length p.workers) ≡ false
      → Acquired p (
          some (
            p.next_name,
            record p {
              workers = p.workers ++ record { name = p.next_name; current = none } ∷ [];
              next_name = suc p.next_name;
            },
          ))
  spawn-Acquired p s e less = record {
    sound = record {
      bounded =
          ground
            (arith, length-append p.workers (record { name = p.next_name; current = none } ∷ []));
      depth = s.depth;
      positive = s.positive;
      named = IsNamed-append 0 p.next_name p.workers none s.named;
      free = rw e tt;
      distinct = s.distinct;
      listed = λ i h. elim (Bool-cases (i == p.next_name)) [
        | inl same ↦ inl (ap some (ground arith))
        | inr other ↦
            let apart : i ≢ p.next_name = λ same. ground (arith, same) in
            let found = current-append_other p.next_name i none p.workers apart in
            elim (s.listed i (sym found ∙ h)) [ inl bad ↦ cc | inr m ↦ inr m ]
      ];
    };
    held = record {
      idles = current-append_new 0 p.next_name none p.workers s.named;
      taken = rw e tt;
    };
    queue = refl;
    state = refl;
    answers = refl;
    at_work = busy-append_new p.next_name p.workers;
    depth = refl;
  }

  pub acquire_worker_full :
      (p : WorkerPool V)
      → p.idle ≡ []
      → leb p.size (length p.workers) ≡ true
      → acquire_worker p ≡ none
  unfolding acquire_worker
  acquire_worker_full p e full = rw (e, full) refl

  pub acquire_worker_spawn :
      (p : WorkerPool V)
      → p.idle ≡ []
      → leb p.size (length p.workers) ≡ false
      → acquire_worker p
        ≡ some (
          p.next_name,
          record p {
            workers = p.workers ++ record { name = p.next_name; current = none } ∷ [];
            next_name = suc p.next_name;
          },
        )
  unfolding acquire_worker
  acquire_worker_spawn p e less = rw (e, less) refl

  pub acquire_worker_pop :
      (p : WorkerPool V) (w : ℕ) (ws : List ℕ)
      → p.idle ≡ w ∷ ws
      → acquire_worker p ≡ some (w, record p { idle = ws })
  unfolding acquire_worker
  acquire_worker_pop p w ws e = rw e refl

  pub acquire_worker-Acquired : (p : WorkerPool V) → IsSound none p → Acquired p (acquire_worker p)
  acquire_worker-Acquired p s = elim (List-cases p.idle) [
    | inl e ↦ elim (Bool-cases (leb p.size (length p.workers))) [
      | inl full ↦ subst (Acquired p) (sym (acquire_worker_full p e full)) (e, ground arith)
      | inr less ↦
          subst (Acquired p) (sym (acquire_worker_spawn p e less)) (spawn-Acquired p s e less)
    ]
    | inr (w, (ws, e)) ↦
        subst (Acquired p) (sym (acquire_worker_pop p w ws e)) (pop-Acquired p w ws s e)
  ]
