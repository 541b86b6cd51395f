-- ===== src/WorkerPool/Workers.antt =====
-- The workers of src/workers/worker-pool.ts as a list, in the order of spawning.
use boilerplate_express_ts.Prelude.{
  ℕ, suc, ◌+◌, ◌≤◌, ◌<◌, ◌≡◌, ◌≢◌, inl, inr, refl, false, Option, none, some, List, [], ◌∷◌, ◌++◌,
  ◌==◌, length, count, arith, Bool-cases,
}
use boilerplate_express_ts.WorkerPool.{
  InFlightTask, WorkerRecord, current_of, set_current, remove, busy, busy_callers,
}

-- The names increase from `lo` on, below `n`.
abbrev pub IsNamed : ℕ → List WorkerRecord → ℕ → Type 0
IsNamed lo [] n = lo ≤ n
IsNamed lo (r ∷ rs) n = (lo ≤ r.name) × IsNamed (suc r.name) rs n

pub current_low :
    (i lo n : ℕ) (rs : List WorkerRecord) → IsNamed lo rs n → i < lo → current_of i rs ≡ none
unfolding current_of
current_low i lo n [] h l = refl
current_low i lo n (r ∷ rs) h l =
    let rest = current_low i (suc r.name) n rs h.1 (omega (arith, h.0, l)) in ground (arith, rest)

pub IsNamed-append :
    (lo n : ℕ) (rs : List WorkerRecord) (c : Option InFlightTask)
    → IsNamed lo rs n
    → IsNamed lo (rs ++ record { name = n; current = c } ∷ []) (suc n)
IsNamed-append lo n [] c h = omega (arith, h)
IsNamed-append lo n (r ∷ rs) c h = (h.0, IsNamed-append (suc r.name) n rs c h.1)

pub IsNamed-set_current :
    (w lo n : ℕ) (c : Option InFlightTask) (rs : List WorkerRecord)
    → IsNamed lo rs n
    → IsNamed lo (set_current w c rs) n
unfolding set_current
IsNamed-set_current w lo n c [] h = h
IsNamed-set_current w lo n c (r ∷ rs) h = elim (Bool-cases (r.name == w)) [
  | inl e ↦ rw e h
  | inr e ↦ rw e (h.0, IsNamed-set_current w (suc r.name) n c rs h.1)
]

IsNamed-weaken :
    (lo lo' n : ℕ) (rs : List WorkerRecord) → lo ≤ lo' → IsNamed lo' rs n → IsNamed lo rs n
IsNamed-weaken lo lo' n [] l h = omega arith
IsNamed-weaken lo lo' n (r ∷ rs) l h = (omega (arith, h.0, l), h.1)

pub IsNamed-remove :
    (w lo n : ℕ) (rs : List WorkerRecord) → IsNamed lo rs n → IsNamed lo (remove w rs) n
unfolding remove
IsNamed-remove w lo n [] h = h
IsNamed-remove w lo n (r ∷ rs) h = elim (Bool-cases (r.name == w)) [
  | inl e ↦ rw e (IsNamed-weaken lo (suc r.name) n rs (omega (arith, h.0)) h.1)
  | inr e ↦ rw e (h.0, IsNamed-remove w (suc r.name) n rs h.1)
]

pub current-set_self :
    (w : ℕ) (c : Option InFlightTask) (x : Option InFlightTask) (rs : List WorkerRecord)
    → current_of w rs ≡ some x
    → current_of w (set_current w c rs) ≡ some c
unfolding current_of set_current
current-set_self w c x [] h = cc
current-set_self w c x (r ∷ rs) h = ground (arith, current-set_self w c x rs)

pub current-set_other :
    (w i : ℕ) (c : Option InFlightTask) (rs : List WorkerRecord)
    → i ≢ w
    → current_of i (set_current w c rs) ≡ current_of i rs
unfolding current_of set_current
current-set_other w i c [] h = refl
current-set_other w i c (r ∷ rs) h = ground (arith, current-set_other w i c rs)

pub current-remove_other :
    (w i : ℕ) (rs : List WorkerRecord) → i ≢ w → current_of i (remove w rs) ≡ current_of i rs
unfolding current_of remove
current-remove_other w i [] h = refl
current-remove_other w i (r ∷ rs) h = ground (arith, current-remove_other w i rs)

pub current-remove_self :
    (w lo n : ℕ) (rs : List WorkerRecord) → IsNamed lo rs n → current_of w (remove w rs) ≡ none
unfolding current_of remove
current-remove_self w lo n [] h = refl
current-remove_self w lo n (r ∷ rs) h = elim (Bool-cases (r.name == w)) [
  | inl e ↦ rw e (current_low w (suc r.name) n rs h.1 (ground arith))
  | inr e ↦ rw (e, e) (current-remove_self w (suc r.name) n rs h.1)
]

pub current-append_other :
    (n i : ℕ) (c : Option InFlightTask) (rs : List WorkerRecord)
    → i ≢ n
    → current_of i (rs ++ record { name = n; current = c } ∷ []) ≡ current_of i rs
unfolding current_of
current-append_other n i c [] h = ground arith
current-append_other n i c (r ∷ rs) h = ground (arith, current-append_other n i c rs)

IsNamed-le : (lo n : ℕ) (rs : List WorkerRecord) → IsNamed lo rs n → lo ≤ n
IsNamed-le lo n [] h = h
IsNamed-le lo n (r ∷ rs) h = omega (arith, h.0, IsNamed-le (suc r.name) n rs h.1)

pub current-append_new :
    (lo n : ℕ) (c : Option InFlightTask) (rs : List WorkerRecord)
    → IsNamed lo rs n
    → current_of n (rs ++ record { name = n; current = c } ∷ []) ≡ some c
unfolding current_of
current-append_new lo n c [] h = ground arith
current-append_new lo n c (r ∷ rs) h =
    let rest = current-append_new (suc r.name) n c rs h.1 in
    let other : r.name == n ≡ false = ground (arith, IsNamed-le (suc r.name) n rs h.1) in
    rw other rest

pub length-set_current :
    (w : ℕ) (c : Option InFlightTask) (rs : List WorkerRecord)
    → length (set_current w c rs) ≡ length rs
unfolding set_current
length-set_current w c [] = refl
length-set_current w c (r ∷ rs) = ground (arith, length-set_current w c rs)

pub length-remove : (w : ℕ) (rs : List WorkerRecord) → length (remove w rs) ≤ length rs
unfolding remove
length-remove w [] = omega arith
length-remove w (r ∷ rs) = ground (arith, length-remove w rs)

-- How the callers of the tasks at work change with one worker.
abbrev pub caller_of : Option InFlightTask → List ℕ
caller_of none = []
caller_of (some t) = t.caller ∷ []

count-busy :
    (a name : ℕ) (c : Option InFlightTask) (rs : List WorkerRecord)
    → count a (busy_callers (busy (record { name = name; current = c } ∷ rs)))
      ≡ count a (caller_of c) + count a (busy_callers (busy rs))
count-busy a name none rs = omega arith
count-busy a name (some t) rs = omega arith

pub count-set_current :
    (a w : ℕ) (c x : Option InFlightTask) (rs : List WorkerRecord)
    → current_of w rs ≡ some x
    → count a (busy_callers (busy (set_current w c rs))) + count a (caller_of x)
      ≡ count a (busy_callers (busy rs)) + count a (caller_of c)
unfolding current_of set_current
count-set_current a w c x [] h = cc
count-set_current a w c x (r ∷ rs) h = elim (Bool-cases (r.name == w)) [
  | inl e ↦
      let same : r.current ≡ x = ground arith in
      rw (e, ← same) (omega (arith, count-busy a r.name r.current rs, count-busy a r.name c rs))
  | inr e ↦
      let rest = count-set_current a w c x rs (ground arith) in
      rw e (
        omega (
          arith,
          rest,
          count-busy a r.name r.current rs,
          count-busy a r.name r.current (set_current w c rs),
        ))
]

pub count-remove :
    (a w : ℕ) (x : Option InFlightTask) (rs : List WorkerRecord)
    → current_of w rs ≡ some x
    → count a (busy_callers (busy (remove w rs))) + count a (caller_of x)
      ≡ count a (busy_callers (busy rs))
unfolding current_of remove
count-remove a w x [] h = cc
count-remove a w x (r ∷ rs) h = elim (Bool-cases (r.name == w)) [
  | inl e ↦
      let same : r.current ≡ x = ground arith in
      rw (e, ← same) (omega (arith, count-busy a r.name r.current rs))
  | inr e ↦
      let rest = count-remove a w x rs (ground arith) in
      rw e (
        omega (
          arith,
          rest,
          count-busy a r.name r.current rs,
          count-busy a r.name r.current (remove w rs),
        ))
]
