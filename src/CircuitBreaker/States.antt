-- ===== src/CircuitBreaker/States.antt =====
-- The state machine of src/resilience/circuit-breaker.ts: which changes it reports, how long it
-- stays open, and how a probe ends an episode.
use boilerplate_express_ts.Prelude.{
  ℕ, ◌<◌, ◌≡◌, refl, ap, sym, subst, ◌∙◌, Bool, true, false, All, List, [], ◌∷◌, arith, length,
  length-set,
}
use boilerplate_express_ts.CircuitBreaker.{
  CircuitBreaker, CircuitState, closed, opened, half_open, CircuitStateChange, CircuitOutcome,
  success, CircuitOptions, created, create, count_outcome, CircuitPermit, Readings, observe,
  acquire, admit, record_outcome, free_slot, decide, settle_probe, judge_window, trip, close,
}
use boilerplate_express_ts.CircuitBreaker.Episodes.{
  System, Event, reads, acquires, settles, step, run, start, count_outcome_lem, settle_at_cases,
  after_settle,
}

-- The changes that the machine can make.
abbrev pub is_edge : CircuitState → CircuitState → Bool
is_edge closed opened = true
is_edge opened half_open = true
is_edge half_open opened = true
is_edge half_open closed = true
is_edge _ _ = false

-- The reported changes, newest first, lead from the initial state to the state `st`.
abbrev pub Chain : List CircuitStateChange → CircuitState → Type 0
Chain [] st = st ≡ closed
Chain (c ∷ cs) st = (c.to ≡ st) × (is_edge c.from c.to ≡ true) × Chain cs c.from

abbrev pub IsTraced : CircuitBreaker → Type 0
IsTraced b = Chain b.changes b.current_state

observe-IsTraced : (now at : ℕ) (b : CircuitBreaker) → IsTraced b → IsTraced (observe now at b)
unfolding observe
observe-IsTraced now at b h = ground arith

settle_probe-IsTraced :
    (o : CircuitOutcome) (t : Readings) (b : CircuitBreaker)
    → b.current_state ≡ half_open
    → IsTraced b
    → IsTraced (settle_probe o t b)
unfolding settle_probe trip close
settle_probe-IsTraced success t b e h = ground arith
settle_probe-IsTraced _ t b e h = ground arith

judge_window-IsTraced :
    (t : Readings) (b : CircuitBreaker)
    → b.current_state ≡ closed
    → IsTraced b
    → IsTraced (judge_window t b)
unfolding judge_window trip
judge_window-IsTraced t b e h = ground arith

decide-IsTraced :
    (o : CircuitOutcome) (iss : CircuitState) (g : ℕ) (t : Readings) (b : CircuitBreaker)
    → IsTraced b
    → IsTraced (decide o iss g t b)
unfolding decide
decide-IsTraced o iss g t b h =
    ground (arith, settle_probe-IsTraced o t b, judge_window-IsTraced t b)

record_outcome-IsTraced :
    (o : CircuitOutcome) (iss : CircuitState) (g : ℕ) (t : Readings) (b : CircuitBreaker)
    → IsTraced b
    → IsTraced (record_outcome o iss g t b)
unfolding record_outcome
record_outcome-IsTraced o iss g t b h =
    let freed = free_slot iss g b in
    decide-IsTraced o iss g t (count_outcome o t.bucket_now freed)
      (subst IsTraced (sym (count_outcome_lem o t.bucket_now freed)) (ground arith))

step-IsTraced : (e : Event) (s : System) → IsTraced s.breaker → IsTraced (step s e).breaker
unfolding step acquire admit
step-IsTraced (reads now at) s h = observe-IsTraced now at s.breaker h
step-IsTraced (acquires now at later) s h = ground (arith, observe-IsTraced now at s.breaker h)
step-IsTraced (settles i o t) s h =
    settle_at_cases (λ u. IsTraced u.breaker) i o t s h
      (λ p e fresh. record_outcome-IsTraced o p.issued_in p.generation t s.breaker h)

run-IsTraced : (es : List Event) (s : System) → IsTraced s.breaker → IsTraced (run s es).breaker
unfolding run
run-IsTraced [] s h = h
run-IsTraced (e ∷ es) s h = run-IsTraced es (step s e) (step-IsTraced e s h)

start-IsTraced : (o : CircuitOptions) (b : CircuitBreaker) → create o ≡ created b → IsTraced b
unfolding create
start-IsTraced o b h = ground arith

-- Over any history of calls the reported changes begin at `closed`, each starts where the one before
-- it ended, the last one ends in the current state, and each is one of closed to open, open to
-- half-open, half-open to open and half-open to closed.
pub changes-Chain :
    (o : CircuitOptions) (b : CircuitBreaker) (es : List Event)
    → create o ≡ created b
    → let c = (run (start b) es).breaker in Chain c.changes c.current_state
changes-Chain o b es built = run-IsTraced es (start b) (start-IsTraced o b built)

-- The readings that the expiry check makes lie before `u`.
abbrev pub IsBefore : ℕ → Event → Type 0
IsBefore u (reads now at) = now < u
IsBefore u (acquires now at later) = now < u
IsBefore u (settles i o t) = Unit

-- What an open circuit keeps: its state, its deadline, the report, and the permits handed out.
abbrev pub StaysOpen : System → System → Type 0
StaysOpen s u =
    (u.breaker.current_state ≡ opened)
    × (u.breaker.open_until ≡ s.breaker.open_until)
    × (u.breaker.changes ≡ s.breaker.changes)
    × (length u.permits ≡ length s.permits)

decide_opened :
    (o : CircuitOutcome) (iss : CircuitState) (g : ℕ) (t : Readings) (b : CircuitBreaker)
    → b.current_state ≡ opened
    → decide o iss g t b ≡ b
unfolding decide
decide_opened o iss g t b h = ground arith

record_outcome-StaysOpen :
    (o : CircuitOutcome) (t : Readings) (i : ℕ) (p : CircuitPermit) (s : System)
    → s.breaker.current_state ≡ opened
    → StaysOpen s (after_settle i o t p s)
unfolding record_outcome
record_outcome-StaysOpen o t i p s h =
    let freed = free_slot p.issued_in p.generation s.breaker in
    let counted = count_outcome o t.bucket_now freed in
    let lem = count_outcome_lem o t.bucket_now freed in
    ground (
      arith,
      ap (λ (c : CircuitBreaker). c.current_state) lem,
      ap (λ (c : CircuitBreaker). c.open_until) lem,
      ap (λ (c : CircuitBreaker). c.changes) lem,
      decide_opened o p.issued_in p.generation t counted,
      length-set s.permits i (record p { settled = true }),
    )

step-StaysOpen :
    (e : Event) (s : System)
    → s.breaker.current_state ≡ opened
    → IsBefore s.breaker.open_until e
    → StaysOpen s (step s e)
unfolding step acquire admit observe
step-StaysOpen (reads now at) s h l = ground arith
step-StaysOpen (acquires now at later) s h l = ground arith
step-StaysOpen (settles i o t) s h l =
    settle_at_cases (StaysOpen s) i o t s (h, refl, refl, refl)
      (λ p e fresh. record_outcome-StaysOpen o t i p s h)

-- An open circuit stays open until its deadline: while the expiry check reads only earlier times, no
-- call, whatever permits settle meanwhile and however, admits anything, moves the deadline or
-- reports a change.
pub run-StaysOpen :
    (es : List Event) (s : System)
    → s.breaker.current_state ≡ opened
    → All (IsBefore s.breaker.open_until) es
    → StaysOpen s (run s es)
unfolding run
run-StaysOpen [] s h l = (h, refl, refl, refl)
run-StaysOpen (e ∷ es) s h l =
    let (here, same, told, many) = step-StaysOpen e s h l.0 in
    let (there, same', told', many') =
      run-StaysOpen es (step s e) here (subst (λ u. All (IsBefore u) es) (sym same) l.1) in
    (there, same' ∙ same, told' ∙ told, many' ∙ many)
