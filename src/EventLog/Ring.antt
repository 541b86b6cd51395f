-- ===== src/EventLog/Ring.antt =====
-- The ring of src/sse/event-log.ts against the list of all messages that were appended.
use mathlib.Core.List.{append-nil, append_assoc}
use native.Mathlib.Decide.{dec_lt}
use boilerplate_express_ts.Prelude.{
  ℕ, zero, suc, ◌+◌, ◌%◌, ◌≤◌, ◌<◌, ◌≡◌, ◌≢◌, refl, ap, sym, ◌∙◌, Option, none, some, List, [], ◌∷◌,
  ◌++◌, length, length-append, length-set, length-replicate, get_elem?, get_elem?-set_self,
  get_elem?-set_ne, Text, arith,
}
use boilerplate_express_ts.EventLog.{EventLog, StreamMessage, create, append, id_for}

-- The events are appended in order; the messages are those that `append` returned.
unfoldable pub append_all : List (Text × Text) → EventLog → EventLog × List StreamMessage
append_all [] log = (log, [])
append_all ((event, body) ∷ es) log =
    let (log', m) = append event body log in let (log'', ms) = append_all es log' in (log'', m ∷ ms)

-- The slots hold the latest messages of the history `ms`, each where its sequence number says.
pub record IsRing (ms : List StreamMessage) (log : EventLog) : Type 0 where
  pub positive : 0 < log.capacity
  pub size : length log.slots ≡ log.capacity
  pub latest : log.latest_sequence ≡ length ms
  pub held :
      (k : ℕ) (m : StreamMessage)
      → get_elem? ms k ≡ some m
      → length ms ≤ k + log.capacity
      → get_elem? log.slots (suc k % log.capacity) ≡ some (some m)

mod_gap : (n a b : ℕ) → 0 < n → a % n ≡ b % n → a < b → a + n ≤ b
mod_gap n a b h e l = grind arith

get_elem?-append_left :
    (xs ys : List StreamMessage) (k : ℕ) → k < length xs → get_elem? (xs ++ ys) k ≡ get_elem? xs k
get_elem?-append_left [] ys k h = elim h [ ]
get_elem?-append_left (x ∷ xs) ys zero h = refl
get_elem?-append_left (x ∷ xs) ys (suc k) h = get_elem?-append_left xs ys k (omega arith)

get_elem?-append_last :
    (xs : List StreamMessage) (m : StreamMessage) (k : ℕ)
    → length xs ≤ k
    → (n : StreamMessage) → get_elem? (xs ++ m ∷ []) k ≡ some n
    → (k ≡ length xs) × (m ≡ n)
get_elem?-append_last [] m zero h n e = (refl, cc)
get_elem?-append_last [] m (suc k) h n e = cc
get_elem?-append_last (x ∷ xs) m zero h n e = elim h [ ]
get_elem?-append_last (x ∷ xs) m (suc k) h n e =
    let (at, same) = get_elem?-append_last xs m k (omega arith) n e in (ap suc at, same)

module _ (ms : List StreamMessage) (log : EventLog) (event body : Text) (r : IsRing ms log) where
  abbrev new : StreamMessage
  new = (append event body log).1

  abbrev at_last : ℕ
  at_last = suc log.latest_sequence % log.capacity

  held_before :
      (k : ℕ) (m : StreamMessage)
      → k < length ms
      → get_elem? ms k ≡ some m
      → suc (length ms) ≤ k + log.capacity
      → get_elem? (append event body log).0.slots (suc k % log.capacity) ≡ some (some m)
  unfolding append
  held_before k m old e recent =
      let apart : at_last ≢ suc k % log.capacity = λ same. absurd (
        omega (
          arith,
          r.latest,
          mod_gap log.capacity (suc k) (suc log.latest_sequence) r.positive (sym same)
              (omega (arith, r.latest)),
        )) in
      get_elem?-set_ne log.slots at_last (suc k % log.capacity) (some new) apart
      ∙ r.held k m e (omega arith)

  held_last : get_elem? (append event body log).0.slots at_last ≡ some (some new)
  unfolding append
  held_last = get_elem?-set_self log.slots at_last (some new) (omega (arith, r.size, r.positive))

  append-IsRing : IsRing (ms ++ new ∷ []) (append event body log).0
  unfolding append
  append-IsRing = record {
    positive = r.positive;
    size = length-set log.slots at_last (some new) ∙ r.size;
    latest = omega (arith, r.latest, length-append ms (new ∷ []));
    held = λ k m e recent. elim (dec_lt k (length ms)) [
      | yes old ↦
          held_before k m old (sym (get_elem?-append_left ms (new ∷ []) k old) ∙ e)
            (omega (arith, length-append ms (new ∷ [])))
      | no late ↦
          let (at, same) = get_elem?-append_last ms new k (omega arith) m e in
          rw (at, ← same, ← r.latest) held_last
    ];
  }

append_all-IsRing :
    (es : List (Text × Text)) (ms : List StreamMessage) (log : EventLog)
    → IsRing ms log
    → IsRing (ms ++ (append_all es log).1) (append_all es log).0
unfolding append_all
append_all-IsRing [] ms log r = rw (append-nil ms) r
append_all-IsRing ((event, body) ∷ es) ms log r =
    let (log', m) = append event body log in
    rw (← append_assoc ms (m ∷ []) (append_all es log').1)
      (append_all-IsRing es (ms ++ m ∷ []) log' (append-IsRing ms log event body r))

create-IsRing :
    (capacity : ℕ) (stream_id : Text) (log : EventLog)
    → create capacity stream_id ≡ some log
    → IsRing [] log
unfolding create
create-IsRing capacity stream_id log h = record {
  positive = ground arith;
  size = sized;
  latest = ground arith;
  held = λ k m e recent. cc;
}
  where
    sized : length log.slots ≡ log.capacity
    sized = ground (arith, length-replicate {A = Option StreamMessage} capacity none)

-- The ring after any events: it holds the history of the returned messages.
pub create-append_all-IsRing :
    (capacity : ℕ) (stream_id : Text) (log : EventLog) (es : List (Text × Text))
    → create capacity stream_id ≡ some log
    → IsRing (append_all es log).1 (append_all es log).0
create-append_all-IsRing capacity stream_id log es h =
    append_all-IsRing es [] log (create-IsRing capacity stream_id log h)

pub append_all_keeps :
    (es : List (Text × Text)) (log : EventLog)
    → ((append_all es log).0.capacity ≡ log.capacity)
      × ((append_all es log).0.stream_id ≡ log.stream_id)
unfolding append_all append
append_all_keeps [] log = (refl, refl)
append_all_keeps ((event, body) ∷ es) log = append_all_keeps es (append event body log).0

abbrev id_or : EventLog → Option StreamMessage → Text
id_or log none = log.stream_id
id_or log (some m) = m.id

-- The `i`-th message returned has the next `i`-th sequence number in its id.
pub append_all-id :
    (es : List (Text × Text)) (log : EventLog) (i : ℕ) (m : StreamMessage)
    → get_elem? (append_all es log).1 i ≡ some m
    → m.id ≡ id_for log (suc i + log.latest_sequence)
unfolding append_all append
append_all-id [] log i m e = cc
append_all-id ((event, body) ∷ es) log zero m e =
    let n : suc zero + log.latest_sequence ≡ suc log.latest_sequence = omega arith in
    rw n (ap (λ (o : Option StreamMessage). id_or log o) (sym e))
append_all-id ((event, body) ∷ es) log (suc i) m e =
    append_all-id es (append event body log).0 i m e ∙ ap (λ n. id_for log n) (omega arith)
