-- ===== src/Bulkhead/Order.antt =====
-- Who is served, and in which order (src/resilience/bulkhead.ts): the queue, and the calls with their
-- answers.
use mathlib.Core.List.{Sublist, map-append, append_assoc, append-nil}
use mathlib.Core.List.Sublist
use boilerplate_express_ts.Prelude.{
  ℕ, ◌+◌, ◌≡◌, refl, ap, subst, Bool, List, [], ◌∷◌, ◌++◌, arith, map, count,
}
use boilerplate_express_ts.Bulkhead.{Bulkhead, BulkheadPermit, Waiter, Answer, acquire, hand_off}
use boilerplate_express_ts.Bulkhead.Slots.{
  System, Event, acquires, times_out, aborts, releases, step, run, start, served, after_leaving,
  times_out_cases, aborts_cases, release_at_cases,
}

abbrev pub callers : List Waiter → List ℕ
callers = map λ w. w.caller

abbrev pub answered_callers : System → List ℕ
answered_callers s = map (λ p. p.0) s.answers

-- Every call of `c` has been answered or waits.
abbrev pub IsAccounted : ℕ → System → Type 0
IsAccounted c s =
    count c s.calls ≡ count c (answered_callers s) + count c (callers s.bulkhead.waiters)

count-callers-cut :
    (c : ℕ) (xs ys : List Waiter) (w : Waiter)
    → count c (callers (xs ++ (w ∷ ys))) ≡ count c (w.caller ∷ []) + count c (callers (xs ++ ys))
count-callers-cut c [] ys w = omega arith
count-callers-cut c (x ∷ xs) ys w = omega (arith, count-callers-cut c xs ys w)

module _ (c : ℕ) where
  acquire-IsAccounted :
      (caller : ℕ) (is_aborted : Bool) (now : ℕ) (s : System)
      → IsAccounted c s
      → IsAccounted c (step s (acquires caller is_aborted now))
  unfolding step acquire
  acquire-IsAccounted caller is_aborted now s v =
      let new : Waiter = record { caller = caller; queued_at = now } in
      ground (arith, count-callers-cut c s.bulkhead.waiters [] new, append-nil s.bulkhead.waiters)

  after_leaving-IsAccounted :
      (caller : ℕ) (s : System) (a : Answer) (xs ys : List Waiter) (w : Waiter)
      → IsAccounted c s
      → s.bulkhead.waiters ≡ xs ++ (w ∷ ys)
      → w.caller ≡ caller
      → IsAccounted c (after_leaving caller a xs ys s)
  after_leaving-IsAccounted caller s a xs ys w v p same =
      ground (arith, count-callers-cut c xs ys w, ap (λ (l : List Waiter). count c (callers l)) p)

  hand_off-IsAccounted :
      (p : List BulkheadPermit) (s : System)
      → IsAccounted c s
      → IsAccounted c (
          served
            (hand_off s.bulkhead).1
            (record s { bulkhead = (hand_off s.bulkhead).0; permits = p }))
  unfolding hand_off
  hand_off-IsAccounted p s v = ground arith

  step-IsAccounted : (e : Event) (s : System) → IsAccounted c s → IsAccounted c (step s e)
  unfolding step
  step-IsAccounted (acquires caller is_aborted now) s v =
      acquire-IsAccounted caller is_aborted now s v
  step-IsAccounted (times_out caller now) s v =
      times_out_cases (IsAccounted c) caller s v
        (λ a xs ys w real p same. after_leaving-IsAccounted caller s a xs ys w v p same) now
  step-IsAccounted (aborts caller) s v =
      aborts_cases (IsAccounted c) caller s v
        (λ a xs ys w real p same. after_leaving-IsAccounted caller s a xs ys w v p same)
  step-IsAccounted (releases i) s v =
      release_at_cases (IsAccounted c) i s v (λ p e fresh. hand_off-IsAccounted _ s v)

  run-IsAccounted : (es : List Event) (s : System) → IsAccounted c s → IsAccounted c (run s es)
  unfolding run
  run-IsAccounted [] s v = v
  run-IsAccounted (e ∷ es) s v = run-IsAccounted es (step s e) (step-IsAccounted e s v)

-- After any history of calls, for each caller the calls it made are the answers that it got (a permit,
-- a refusal, a timeout or an abort) and its places in the queue together: no promise is settled
-- twice, and none is lost.
pub run-start-IsAccounted :
    (b : Bulkhead) (es : List Event) (c : ℕ) → b.waiters ≡ [] → IsAccounted c (run (start b) es)
run-start-IsAccounted b es c empty = run-IsAccounted c es (start b) (ground arith)

-- Those served from the queue, and then those who wait, in the order in which they came.
abbrev pub IsFifo : System → Type 0
IsFifo s = Sublist (s.handed ++ callers s.bulkhead.waiters) s.arrivals

queued-Sublist :
    (handed arrivals : List ℕ) (ws : List Waiter) (new : Waiter)
    → Sublist (handed ++ callers ws) arrivals
    → Sublist (handed ++ callers (ws ++ new ∷ [])) (arrivals ++ new.caller ∷ [])
queued-Sublist handed arrivals ws new v = rw (map-append (λ (w : Waiter). w.caller) ws (new ∷ [])) (
    rw (← append_assoc handed (callers ws) (new.caller ∷ []))
      (Sublist.append v (Sublist.refl (new.caller ∷ []))))

acquire-IsFifo :
    (caller : ℕ) (is_aborted : Bool) (now : ℕ) (s : System)
    → IsFifo s
    → IsFifo (step s (acquires caller is_aborted now))
unfolding step acquire
acquire-IsFifo caller is_aborted now s v =
    let new : Waiter = record { caller = caller; queued_at = now } in
    let longer = queued-Sublist s.handed s.arrivals s.bulkhead.waiters new v in ground arith

cut-Sublist :
    (xs ys : List Waiter) (w : Waiter) → Sublist (callers (xs ++ ys)) (callers (xs ++ (w ∷ ys)))
cut-Sublist [] ys w = Sublist.cons w.caller (Sublist.refl (callers ys))
cut-Sublist (x ∷ xs) ys w = Sublist.cons-cons x.caller (cut-Sublist xs ys w)

after_leaving-IsFifo :
    (caller : ℕ) (s : System) (a : Answer) (xs ys : List Waiter) (w : Waiter)
    → IsFifo s
    → s.bulkhead.waiters ≡ xs ++ (w ∷ ys)
    → IsFifo (after_leaving caller a xs ys s)
after_leaving-IsFifo caller s a xs ys w v p =
    Sublist.trans (Sublist.append (Sublist.refl s.handed) (cut-Sublist xs ys w))
      (subst (λ (l : List Waiter). Sublist (s.handed ++ callers l) s.arrivals) p v)

hand_off-IsFifo :
    (p : List BulkheadPermit) (s : System)
    → IsFifo s
    → IsFifo (
        served
          (hand_off s.bulkhead).1
          (record s { bulkhead = (hand_off s.bulkhead).0; permits = p }))
unfolding hand_off
hand_off-IsFifo p s v = go s.bulkhead.waiters refl
  where
    go :
        (ws : List Waiter)
        → s.bulkhead.waiters ≡ ws
        → IsFifo (
            served
              (hand_off s.bulkhead).1
              (record s { bulkhead = (hand_off s.bulkhead).0; permits = p }))
    go [] e = ground arith
    go (w ∷ ws) e = ground (arith, append_assoc s.handed (w.caller ∷ []) (callers ws))

step-IsFifo : (e : Event) (s : System) → IsFifo s → IsFifo (step s e)
unfolding step
step-IsFifo (acquires caller is_aborted now) s v = acquire-IsFifo caller is_aborted now s v
step-IsFifo (times_out caller now) s v =
    times_out_cases IsFifo caller s v
      (λ a xs ys w real p same. after_leaving-IsFifo caller s a xs ys w v p) now
step-IsFifo (aborts caller) s v =
    aborts_cases IsFifo caller s v
      (λ a xs ys w real p same. after_leaving-IsFifo caller s a xs ys w v p)
step-IsFifo (releases i) s v = release_at_cases IsFifo i s v (λ p e fresh. hand_off-IsFifo _ s v)

run-IsFifo : (es : List Event) (s : System) → IsFifo s → IsFifo (run s es)
unfolding run
run-IsFifo [] s v = v
run-IsFifo (e ∷ es) s v = run-IsFifo es (step s e) (step-IsFifo e s v)

-- After any history, the callers that were served from the queue, in the order in which they were
-- served, followed by those who still wait, are a sublist of the callers in the order in which they
-- were queued: nobody overtakes.
pub run-start-IsFifo : (b : Bulkhead) (es : List Event) → b.waiters ≡ [] → IsFifo (run (start b) es)
run-start-IsFifo b es empty = run-IsFifo es (start b) (rw empty (Sublist.refl []))
