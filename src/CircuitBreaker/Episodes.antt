-- ===== src/CircuitBreaker/Episodes.antt =====
-- src/resilience/circuit-breaker.ts seen over a history of calls: the breaker with every permit
-- that it has handed out. An event carries the readings of the clock and of `random()` of its call.
use boilerplate_express_ts.Prelude.{
  ℕ, zero, suc, ◌+◌, ◌≤◌, ◌<◌, ◌≡◌, refl, sym, subst, ◌∙◌, ◌≢◌, ◌⊎◌, inl, inr, Bool, true, false,
  not, ◌&&◌, none, some, List, [], ◌∷◌, ◌==◌, if◌then◌else◌, set, get_elem?, All, arith, Bool-cases,
  Option-cases,
}
use boilerplate_express_ts.CircuitBreaker.{
  CircuitBreaker, CircuitState, closed, opened, half_open, CircuitOutcome, success, failure,
  ignored, CircuitPermit, Readings, Acquired, granted, rejected, CircuitOptions, created, create,
  observe, acquire, admit, settle, record_outcome, count_outcome, free_slot, decide, settle_probe,
  judge_window, trip, close, same_state,
}

pub record System : Type 0 where
  pub breaker : CircuitBreaker
  pub permits : List CircuitPermit

pub data Event : Type 0 where
  reads : (now at : ℕ) → Event
  acquires : (now at later : ℕ) → Event
  settles : (i : ℕ) → CircuitOutcome → Readings → Event

abbrev pub issue : List CircuitPermit → CircuitBreaker × Acquired → System
issue ps (b, granted p) = record { breaker = b; permits = p ∷ ps }
issue ps (b, rejected ms) = record { breaker = b; permits = ps }

-- The `i`-th permit is settled; an error leaves everything as it was.
unfoldable pub settle_at : ℕ → CircuitOutcome → Readings → System → System
settle_at i outcome t s = elim (get_elem? s.permits i) [
  | none ↦ s
  | some p ↦ elim (settle outcome t p s.breaker) [
    | none ↦ s
    | some (p', b) ↦ record { breaker = b; permits = set s.permits i p' }
  ]
]

unfoldable pub step : System → Event → System
unfolding settle_at
step s (reads now at) = record s { breaker = observe now at s.breaker }
step s (acquires now at later) = issue s.permits (acquire now at later s.breaker)
step s (settles i outcome t) = settle_at i outcome t s

unfoldable pub run : System → List Event → System
run s [] = s
run s (e ∷ es) = run (step s e) es

abbrev pub start : CircuitBreaker → System
start b = record { breaker = b; permits = [] }

-- An unsettled probe of the episode `g`.
abbrev pub is_live : ℕ → CircuitPermit → Bool
is_live g p = not p.settled && (same_state p.issued_in half_open && (p.generation == g))

abbrev pub weight : Bool → ℕ
weight b = if b then 1 else 0

abbrev pub live_probes : ℕ → List CircuitPermit → ℕ
live_probes g [] = 0
live_probes g (p ∷ ps) = weight (is_live g p) + live_probes g ps

-- The permits of later episodes than `g` do not exist yet.
abbrev pub Issued : ℕ → List CircuitPermit → Type 0
Issued g = All λ p. p.generation ≤ g

Issued-suc : (g : ℕ) (ps : List CircuitPermit) → Issued g ps → Issued (g + 1) ps
Issued-suc g [] h = tt
Issued-suc g (p ∷ ps) h = (omega arith, Issued-suc g ps h.1)

live_probes_none : (g n : ℕ) (ps : List CircuitPermit) → Issued g ps → g < n → live_probes n ps ≡ 0
live_probes_none g n [] h l = refl
live_probes_none g n (p ∷ ps) h l = ground (arith, live_probes_none g n ps h.1)

live_probes-set :
    (g i : ℕ) (p : CircuitPermit) (ps : List CircuitPermit)
    → get_elem? ps i ≡ some p
    → live_probes g ps
      ≡ live_probes g (set ps i (record p { settled = true })) + weight (is_live g p)
live_probes-set g i p [] e = cc
live_probes-set g zero p (q ∷ ps) e = ground arith
live_probes-set g (suc i) p (q ∷ ps) e = omega (arith, live_probes-set g i p ps e)

Issued-set :
    (g i : ℕ) (p q : CircuitPermit) (ps : List CircuitPermit)
    → get_elem? ps i ≡ some p
    → q.generation ≡ p.generation
    → Issued g ps
    → Issued g (set ps i q)
Issued-set g i p q [] e k h = tt
Issued-set g zero p q (x ∷ ps) e k h = ground arith
Issued-set g (suc i) p q (x ∷ ps) e k h = (h.0, Issued-set g i p q ps e k h.1)

pub count_outcome_lem :
    (o : CircuitOutcome) (now : ℕ) (b : CircuitBreaker)
    → count_outcome o now b ≡ record b { buckets = (count_outcome o now b).buckets }
unfolding count_outcome
count_outcome_lem success now b = refl
count_outcome_lem failure now b = refl
count_outcome_lem ignored now b = refl

-- What a settlement does to the episode: it ends it, or it keeps it with at most one slot less.
abbrev Settled : CircuitBreaker → CircuitBreaker → Type 0
Settled b b' =
    (b'.generation ≡ b.generation)
    × (b'.options ≡ b.options)
    × (((b'.current_state ≡ opened) × (b'.probes_in_flight ≡ 0))
        ⊎ ((b'.current_state ≢ opened)
            × (b.current_state ≢ opened)
            × (b'.probes_in_flight ≡ b.probes_in_flight)))

settle_probe-Settled :
    (o : CircuitOutcome) (t : Readings) (b : CircuitBreaker)
    → b.current_state ≡ half_open
    → Settled b (settle_probe o t b)
unfolding settle_probe trip close
settle_probe-Settled success t b h = ground arith
settle_probe-Settled _ t b h = ground arith

judge_window-Settled :
    (t : Readings) (b : CircuitBreaker) → b.current_state ≡ closed → Settled b (judge_window t b)
unfolding judge_window trip
judge_window-Settled t b h = ground arith

decide-Settled :
    (o : CircuitOutcome) (iss : CircuitState) (g : ℕ) (t : Readings) (b : CircuitBreaker)
    → (b.current_state ≡ opened → b.probes_in_flight ≡ 0)
    → Settled b (decide o iss g t b)
unfolding decide
decide-Settled o iss g t b h = ground (arith, settle_probe-Settled o t b, judge_window-Settled t b)

free_slot-empty :
    (iss : CircuitState) (g : ℕ) (b : CircuitBreaker)
    → (b.current_state ≡ opened → b.probes_in_flight ≡ 0)
    → (free_slot iss g b).current_state ≡ opened
    → (free_slot iss g b).probes_in_flight ≡ 0
free_slot-empty iss g b h e = ground arith

record_outcome-Settled :
    (o : CircuitOutcome) (iss : CircuitState) (g : ℕ) (t : Readings) (b : CircuitBreaker)
    → (b.current_state ≡ opened → b.probes_in_flight ≡ 0)
    → Settled (free_slot iss g b) (record_outcome o iss g t b)
unfolding record_outcome
record_outcome-Settled o iss g t b h =
    let freed = free_slot iss g b in
    subst (λ c. Settled freed (decide o iss g t c)) (sym (count_outcome_lem o t.bucket_now freed))
      (decide-Settled o iss g t
        (record freed { buckets = (count_outcome o t.bucket_now freed).buckets })
        (free_slot-empty iss g b h))

-- The slots that are taken are the unsettled probes of the current episode.
pub record IsSound (s : System) : Type 0 where
  pub issued : Issued s.breaker.generation s.permits
  pub taken :
      s.breaker.current_state ≢ opened
      → s.breaker.probes_in_flight ≡ live_probes s.breaker.generation s.permits
  pub idle : s.breaker.current_state ≡ opened → s.breaker.probes_in_flight ≡ 0
  pub bounded : s.breaker.probes_in_flight ≤ s.breaker.options.half_open_probes

observe-IsSound :
    (now at : ℕ) (s : System)
    → IsSound s
    → IsSound (record s { breaker = observe now at s.breaker })
unfolding observe
observe-IsSound now at s v =
    let g = s.breaker.generation in
    ground (arith, Issued-suc g s.permits v.issued, live_probes_none g (g + 1) s.permits v.issued)

admit-IsSound :
    (later : ℕ) (s : System) → IsSound s → IsSound (issue s.permits (admit later s.breaker))
unfolding admit
admit-IsSound later s v = ground arith

abbrev pub after_settle : ℕ → CircuitOutcome → Readings → CircuitPermit → System → System
after_settle i o t p s = record {
  breaker = record_outcome o p.issued_in p.generation t s.breaker;
  permits = set s.permits i (record p { settled = true });
}

-- A settlement of the unsettled permit `p`, the `i`-th.
settle-IsSound :
    (i : ℕ) (o : CircuitOutcome) (t : Readings) (p : CircuitPermit) (s : System)
    → get_elem? s.permits i ≡ some p
    → p.settled ≡ false
    → IsSound s
    → IsSound (after_settle i o t p s)
settle-IsSound i o t p s e fresh v =
    let g = s.breaker.generation in
    ground (
      arith,
      record_outcome-Settled o p.issued_in p.generation t s.breaker v.idle,
      Issued-set g i p (record p { settled = true }) s.permits e refl v.issued,
      live_probes-set g i p s.permits e,
    )

-- A settlement finds no permit or a settled one, and changes nothing; or it records an outcome.
pub settle_at_cases {ℓ} :
    (P : System → Type ℓ) (i : ℕ) (o : CircuitOutcome) (t : Readings) (s : System)
    → P s
    → ((p : CircuitPermit)
        → get_elem? s.permits i ≡ some p
        → p.settled ≡ false
        → P (after_settle i o t p s))
    → P (settle_at i o t s)
unfolding settle_at settle
settle_at_cases P i o t s kept settled = elim (Option-cases (get_elem? s.permits i)) [
  | inl e ↦ rw (e, settle_at) kept
  | inr (p, e) ↦ elim (Bool-cases p.settled) [
    | inl done ↦ rw (e, settle_at) (rw done kept)
    | inr fresh ↦ rw (e, settle_at) (rw fresh (settled p e fresh))
  ]
]

settle_at-IsSound :
    (i : ℕ) (o : CircuitOutcome) (t : Readings) (s : System)
    → IsSound s
    → IsSound (settle_at i o t s)
settle_at-IsSound i o t s v =
    settle_at_cases IsSound i o t s v (λ p e fresh. settle-IsSound i o t p s e fresh v)

step-IsSound : (e : Event) (s : System) → IsSound s → IsSound (step s e)
unfolding step acquire
step-IsSound (reads now at) s v = observe-IsSound now at s v
step-IsSound (acquires now at later) s v = admit-IsSound later _ (observe-IsSound now at s v)
step-IsSound (settles i o t) s v = settle_at-IsSound i o t s v

pub run-IsSound : (es : List Event) (s : System) → IsSound s → IsSound (run s es)
unfolding run
run-IsSound [] s v = v
run-IsSound (e ∷ es) s v = run-IsSound es (step s e) (step-IsSound e s v)

pub start-IsSound :
    (o : CircuitOptions) {b : CircuitBreaker} → create o ≡ created b → IsSound (start b)
unfolding create
start-IsSound o h = ground arith

pub create-options :
    (o : CircuitOptions) (b : CircuitBreaker) → create o ≡ created b → b.options ≡ o
unfolding create
create-options o b h = ground arith

free_slot-options :
    (iss : CircuitState) (g : ℕ) (b : CircuitBreaker) → (free_slot iss g b).options ≡ b.options
free_slot-options iss g b = ground arith

step-options : (e : Event) (s : System) → IsSound s → (step s e).breaker.options ≡ s.breaker.options
unfolding step acquire admit observe settle_at settle
step-options (reads now at) s v = ground arith
step-options (acquires now at later) s v = ground arith
step-options (settles i o t) s v =
    settle_at_cases (λ u. u.breaker.options ≡ s.breaker.options) i o t s refl
      (λ p e fresh.
        (record_outcome-Settled o p.issued_in p.generation t s.breaker v.idle).1
        ∙ free_slot-options p.issued_in p.generation s.breaker)

pub run-options :
    (es : List Event) (s : System) → IsSound s → (run s es).breaker.options ≡ s.breaker.options
unfolding run
run-options [] s v = refl
run-options (e ∷ es) s v = run-options es (step s e) (step-IsSound e s v) ∙ step-options e s v

-- Whatever the history since the breaker was built, while it is half-open `probesInFlight` is the
-- number of permits of the current episode that are not settled, and that number is within
-- `halfOpenProbes`.
pub probe_budget :
    (o : CircuitOptions) (b : CircuitBreaker) (es : List Event)
    → create o ≡ created b
    → (run (start b) es).breaker.current_state ≡ half_open
    → let s = run (start b) es in
      (s.breaker.probes_in_flight ≡ live_probes s.breaker.generation s.permits)
      × (live_probes s.breaker.generation s.permits ≤ o.half_open_probes)
probe_budget o b es built h =
    let v = start-IsSound o built in
    let w = run-IsSound es (start b) v in
    ground (arith, w.taken, w.bounded, run-options es (start b) v, create-options o b built)
