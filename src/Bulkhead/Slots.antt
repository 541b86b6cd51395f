-- ===== src/Bulkhead/Slots.antt =====
-- src/resilience/bulkhead.ts over a history of calls: the bulkhead, the permits that it has handed
-- out, and the log of the calls and their answers.
use boilerplate_express_ts.Prelude.{
  ℕ, zero, suc, ◌+◌, ◌-◌, ◌≤◌, ◌≡◌, refl, ap, sym, ◌∙◌, ◌≢◌, inl, inr, Bool, true, false, Option,
  none, some, List, [], ◌∷◌, ◌++◌, ◌==◌, if◌then◌else◌, length, length-append, set, get_elem?,
  arith, Bool-cases, Option-cases,
}
use boilerplate_express_ts.Bulkhead.{
  Bulkhead, BulkheadOptions, BulkheadPermit, Waiter, Answer, admitted, aborted, queue_timeout,
  created, create, acquire, leave, time_out, abort, hand_off, release,
}

-- `arrivals` are the callers that were queued and `handed` those whose wait ended with a slot, both
-- oldest first.
pub record System : Type 0 where
  pub bulkhead : Bulkhead
  pub permits : List BulkheadPermit
  pub calls : List ℕ
  pub answers : List (ℕ × Answer)
  pub arrivals : List ℕ
  pub handed : List ℕ

pub data Event : Type 0 where
  acquires : (caller : ℕ) → (is_aborted : Bool) → (now : ℕ) → Event
  times_out : (caller now : ℕ) → Event
  aborts : (caller : ℕ) → Event
  releases : (i : ℕ) → Event

abbrev pub permit : ℕ → BulkheadPermit
permit caller = record { holder = caller; released = false }

-- The promise of `caller` is settled by the answer, or stays pending.
abbrev pub answered : ℕ → Option Answer → System → System
answered caller none s = s
answered caller (some admitted) s = record s {
  answers = (caller, admitted) ∷ s.answers;
  permits = permit caller ∷ s.permits;
}
answered caller (some a) s = record s { answers = (caller, a) ∷ s.answers }

abbrev pub queued : ℕ → Option Answer → System → System
queued caller none s = record s { arrivals = s.arrivals ++ caller ∷ [] }
queued caller (some a) s = s

abbrev pub served : Option Waiter → System → System
served none s = s
served (some w) s = record s {
  answers = (w.caller, admitted) ∷ s.answers;
  permits = permit w.caller ∷ s.permits;
  handed = s.handed ++ w.caller ∷ [];
}

-- The `i`-th permit, newest first, is released; an error leaves everything as it was.
unfoldable pub release_at : ℕ → System → System
release_at i s = elim (get_elem? s.permits i) [
  | none ↦ s
  | some p ↦ elim (release p s.bulkhead) [
    | none ↦ s
    | some (p', r) ↦ served r.1 (record s { bulkhead = r.0; permits = set s.permits i p' })
  ]
]

abbrev pub after_acquire : ℕ → Bulkhead × Option Answer → System → System
after_acquire caller (b, a) s =
    queued caller a (answered caller a (record s { bulkhead = b; calls = caller ∷ s.calls }))

abbrev pub after_leave : ℕ → Bulkhead × Option Answer → System → System
after_leave caller (b, a) s = answered caller a (record s { bulkhead = b })

unfoldable pub step : System → Event → System
unfolding release_at
step s (acquires caller is_aborted now) =
    after_acquire caller (acquire caller is_aborted now s.bulkhead) s
step s (times_out caller now) = after_leave caller (time_out caller now s.bulkhead) s
step s (aborts caller) = after_leave caller (abort caller s.bulkhead) s
step s (releases i) = release_at i s

unfoldable pub run : System → List Event → System
run s [] = s
run s (e ∷ es) = run (step s e) es

abbrev pub start : Bulkhead → System
start b = record {
  bulkhead = b;
  permits = [];
  calls = [];
  answers = [];
  arrivals = [];
  handed = [];
}

abbrev pub held : List BulkheadPermit → ℕ
held [] = 0
held (p ∷ ps) = (if p.released then 0 else 1) + held ps

held-set :
    (i : ℕ) (p : BulkheadPermit) (ps : List BulkheadPermit)
    → get_elem? ps i ≡ some p
    → p.released ≡ false
    → held ps ≡ suc (held (set ps i (record p { released = true })))
held-set i p [] e f = cc
held-set zero p (q ∷ ps) e f = ground arith
held-set (suc i) p (q ∷ ps) e f = omega (arith, held-set i p ps e f)

pub record IsSound (o : BulkheadOptions) (s : System) : Type 0 where
  pub kept : s.bulkhead.options ≡ o
  pub counted : s.bulkhead.in_flight ≡ held s.permits
  pub within : s.bulkhead.in_flight ≤ o.max_concurrent
  pub queue : length s.bulkhead.waiters ≤ o.max_queue
  pub busy : s.bulkhead.waiters ≢ [] → s.bulkhead.in_flight ≡ o.max_concurrent

-- A caller that leaves the queue is cut out of it; the order of the others stays.
abbrev pub Cut : ℕ → List Waiter → Option (Waiter × List Waiter) → Type 0
Cut caller ws none = Unit
Cut caller ws (some (w, vs)) =
    (xs : List Waiter) × (ys : List Waiter) × (ws ≡ xs ++ (w ∷ ys))
    × (vs ≡ xs ++ ys)
    × (w.caller ≡ caller)

Cut-cons :
    (caller : ℕ) (x : Waiter) (ws : List Waiter) (r : Option (Waiter × List Waiter))
    → Cut caller ws r
    → Cut caller (x ∷ ws) (elim r [ none ↦ none | some (v, vs) ↦ some (v, x ∷ vs) ])
Cut-cons caller x ws none h = tt
Cut-cons caller x ws (some (w, vs)) (xs, ys, p, q, same) =
    (x ∷ xs, ys, ap (λ l. x ∷ l) p, ap (λ l. x ∷ l) q, same)

pub leave-Cut : (caller : ℕ) (ws : List Waiter) → Cut caller ws (leave caller ws)
unfolding leave
leave-Cut caller [] = tt
leave-Cut caller (x ∷ ws) = elim (Bool-cases (x.caller == caller)) [
  | inl here ↦ rw here ([], ws, refl, refl, ground arith)
  | inr there ↦ rw there (Cut-cons caller x ws (leave caller ws) (leave-Cut caller ws))
]

-- A waiter that gave up, between `xs` and `ys` in the queue.
abbrev pub after_leaving : ℕ → Answer → List Waiter → List Waiter → System → System
after_leaving caller a xs ys s = record s {
  bulkhead = record s.bulkhead { waiters = xs ++ ys };
  answers = (caller, a) ∷ s.answers;
}

-- A caller whose timer fires or whose signal aborts is waiting and leaves with a refusal; or nothing
-- changes.
module _ {ℓ} (P : System → Type ℓ) (caller : ℕ) (s : System) (kept : P s)
    (left : (a : Answer) (xs ys : List Waiter) (w : Waiter)
      → a ≢ admitted
      → s.bulkhead.waiters ≡ xs ++ (w ∷ ys)
      → w.caller ≡ caller
      → P (after_leaving caller a xs ys s)) where
  pub times_out_cases : (now : ℕ) → P (step s (times_out caller now))
  unfolding step time_out
  times_out_cases now = go (leave caller s.bulkhead.waiters) (leave-Cut caller s.bulkhead.waiters)
    where
      go :
          (r : Option (Waiter × List Waiter))
          → Cut caller s.bulkhead.waiters r
          → P (
              after_leave caller
                (elim r [
                  | none ↦ (s.bulkhead, none)
                  | some (w, ws) ↦
                      (record s.bulkhead { waiters = ws }, some (queue_timeout (now - w.queued_at)))
                ])
                s)
      go none h = kept
      go (some (w, ws)) (xs, ys, p, q, same) =
          rw q (left (queue_timeout (now - w.queued_at)) xs ys w (λ e. cc) p same)

  pub aborts_cases : P (step s (aborts caller))
  unfolding step abort
  aborts_cases = go (leave caller s.bulkhead.waiters) (leave-Cut caller s.bulkhead.waiters)
    where
      go :
          (r : Option (Waiter × List Waiter))
          → Cut caller s.bulkhead.waiters r
          → P (
              after_leave caller
                (elim r [
                  | none ↦ (s.bulkhead, none)
                  | some (w, ws) ↦ (record s.bulkhead { waiters = ws }, some aborted)
                ])
                s)
      go none h = kept
      go (some (w, ws)) (xs, ys, p, q, same) = rw q (left aborted xs ys w (λ e. cc) p same)

-- A permit is released for the first time, and its slot is handed off; or nothing changes.
pub release_at_cases {ℓ} :
    (P : System → Type ℓ) (i : ℕ) (s : System)
    → P s
    → ((p : BulkheadPermit)
        → get_elem? s.permits i ≡ some p
        → p.released ≡ false
        → P (
            served (hand_off s.bulkhead).1 (record s {
              bulkhead = (hand_off s.bulkhead).0;
              permits = set s.permits i (record p { released = true });
            })))
    → P (release_at i s)
unfolding release_at release
release_at_cases P i s kept released = elim (Option-cases (get_elem? s.permits i)) [
  | inl e ↦ rw (e, release_at) kept
  | inr (p, e) ↦ elim (Bool-cases p.released) [
    | inl done ↦ rw (e, release_at) (rw done kept)
    | inr fresh ↦ rw (e, release_at) (rw fresh (released p e fresh))
  ]
]

length-cut : (xs ys : List Waiter) (w : Waiter) → length (xs ++ (w ∷ ys)) ≡ suc (length (xs ++ ys))
length-cut [] ys w = refl
length-cut (x ∷ xs) ys w = ap suc (length-cut xs ys w)

cut-ne-nil : (xs ys : List Waiter) (w : Waiter) → (xs ++ (w ∷ ys)) ≢ []
cut-ne-nil [] ys w e = cc
cut-ne-nil (x ∷ xs) ys w e = cc

module _ (o : BulkheadOptions) where
  acquire-IsSound :
      (caller : ℕ) (is_aborted : Bool) (now : ℕ) (s : System)
      → IsSound o s
      → IsSound o (step s (acquires caller is_aborted now))
  unfolding step acquire
  acquire-IsSound caller is_aborted now s v =
      ground
        (arith, length-append s.bulkhead.waiters (record { caller = caller; queued_at = now } ∷ []))

  -- The queue and the log may change, the slots not, and the queue only gets shorter.
  shrink-IsSound :
      (s u : System)
      → u.bulkhead.options ≡ s.bulkhead.options
      → u.bulkhead.in_flight ≡ s.bulkhead.in_flight
      → held u.permits ≡ held s.permits
      → length u.bulkhead.waiters ≤ length s.bulkhead.waiters
      → (u.bulkhead.waiters ≢ [] → s.bulkhead.waiters ≢ [])
      → IsSound o s
      → IsSound o u
  shrink-IsSound s u opts slots ps short wait v = record {
    kept = opts ∙ v.kept;
    counted = omega (arith, v.counted);
    within = omega (arith, v.within);
    queue = omega (arith, v.queue);
    busy = λ h. slots ∙ v.busy (wait h);
  }

  after_leaving-IsSound :
      (caller : ℕ) (s : System) (a : Answer) (xs ys : List Waiter) (w : Waiter)
      → IsSound o s
      → s.bulkhead.waiters ≡ xs ++ (w ∷ ys)
      → IsSound o (after_leaving caller a xs ys s)
  after_leaving-IsSound caller s a xs ys w v p =
      shrink-IsSound s _ refl refl refl
        (omega (arith, length-cut xs ys w, ap (λ (l : List Waiter). length l) p))
        (λ h e. cut-ne-nil xs ys w (sym p ∙ e)) v

  hand_off-IsSound :
      (i : ℕ) (p : BulkheadPermit) (s : System)
      → IsSound o s
      → get_elem? s.permits i ≡ some p
      → p.released ≡ false
      → IsSound o (
          served (hand_off s.bulkhead).1 (record s {
            bulkhead = (hand_off s.bulkhead).0;
            permits = set s.permits i (record p { released = true });
          }))
  unfolding hand_off
  hand_off-IsSound i p s v e fresh = ground (arith, held-set i p s.permits e fresh)

  step-IsSound : (e : Event) (s : System) → IsSound o s → IsSound o (step s e)
  unfolding step
  step-IsSound (acquires caller is_aborted now) s v = acquire-IsSound caller is_aborted now s v
  step-IsSound (times_out caller now) s v =
      times_out_cases (IsSound o) caller s v
        (λ a xs ys w real p same. after_leaving-IsSound caller s a xs ys w v p) now
  step-IsSound (aborts caller) s v =
      aborts_cases (IsSound o) caller s v
        (λ a xs ys w real p same. after_leaving-IsSound caller s a xs ys w v p)
  step-IsSound (releases i) s v =
      release_at_cases (IsSound o) i s v (λ p e fresh. hand_off-IsSound i p s v e fresh)

  run-IsSound : (es : List Event) (s : System) → IsSound o s → IsSound o (run s es)
  unfolding run
  run-IsSound [] s v = v
  run-IsSound (e ∷ es) s v = run-IsSound es (step s e) (step-IsSound e s v)

start-IsSound : (o : BulkheadOptions) (b : Bulkhead) → create o ≡ created b → IsSound o (start b)
unfolding create
start-IsSound o b h = ground arith

-- After any history since the bulkhead was built: its slots in flight are the permits that are not
-- released, they and the queue are within their limits, and whoever waits does so only while every
-- slot is taken.
pub run-start-IsSound :
    (o : BulkheadOptions) (b : Bulkhead) (es : List Event)
    → create o ≡ created b
    → IsSound o (run (start b) es)
run-start-IsSound o b es built = run-IsSound o es (start b) (start-IsSound o b built)
