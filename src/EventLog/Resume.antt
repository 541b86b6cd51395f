-- ===== src/EventLog/Resume.antt =====
-- Resuming from a cursor (`since` in src/sse/event-log.ts).
use boilerplate_express_ts.Prelude.{
  ℕ, zero, suc, ◌+◌, ◌-◌, ◌≤◌, ◌<◌, ◌≡◌, ◌≢◌, refl, ap, sym, ◌∙◌, true, false, some, List, [], ◌∷◌,
  ◌++◌, length, get_elem?, drop, Text, text_eq, text_eq_iff, print, read-print, print-IsDigit,
  print-HasHead, IsDigit, HasHead, All, arith, ltb, leb, if◌then◌else◌, Bool-cases, inl, inr,
}
use boilerplate_express_ts.Prelude.Scan.{cut-append, Lacks}
use boilerplate_express_ts.EventLog.{
  EventLog, StreamMessage, ResumeOutcome, live, replay, reset, expired, unknown_stream, create,
  collect, since, resume, parse_sequence, includes, sequence_separator, is_number, all_digits,
  max_safe_integer,
}
use boilerplate_express_ts.EventLog.Ring.{
  append_all, IsRing, create-append_all-IsRing, append_all_keeps, append_all-id,
}

drop_all : (ms : List StreamMessage) (k : ℕ) → length ms ≤ k → drop k ms ≡ []
drop_all [] zero h = refl
drop_all [] (suc k) h = refl
drop_all (m ∷ ms) zero h = elim h [ ]
drop_all (m ∷ ms) (suc k) h = drop_all ms k (omega arith)

drop_one :
    (ms : List StreamMessage) (k : ℕ)
    → k < length ms
    → (m : StreamMessage) × (get_elem? ms k ≡ some m) × (drop k ms ≡ m ∷ drop (suc k) ms)
drop_one [] k h = elim h [ ]
drop_one (m ∷ ms) zero h = (m, refl, refl)
drop_one (m ∷ ms) (suc k) h = drop_one ms k (omega arith)

collect-drop :
    (ms : List StreamMessage) (log : EventLog) (count k : ℕ)
    → IsRing ms log
    → k + count ≡ length ms
    → length ms ≤ k + log.capacity
    → collect log (suc k) count ≡ drop k ms
unfolding collect
collect-drop ms log zero k r total recent = sym (drop_all ms k (omega arith))
collect-drop ms log (suc count) k r total recent =
    let (m, at, cut_off) = drop_one ms k (omega arith) in
    rw (r.held k m at recent, cut_off)
      (ap (λ l. m ∷ l) (collect-drop ms log count (suc k) r (omega arith) (omega arith)))

-- What a client that saw the first `seen` messages of the history `ms` is told.
abbrev pub answer : ℕ → ℕ → List StreamMessage → ResumeOutcome
answer capacity seen ms =
    if leb (length ms) seen
    then live
    else if ltb (seen + capacity) (length ms)
    then reset expired
    else replay (drop seen ms)

resume-answer :
    (ms : List StreamMessage) (log : EventLog) (i : ℕ)
    → IsRing ms log
    → resume (suc i) log ≡ answer log.capacity (suc i) ms
unfolding resume
resume-answer ms log i r =
    ground (arith, r.latest, collect-drop ms log (log.latest_sequence - suc i) (suc i) r)

includes-Lacks : (c : ℕ) (s : Text) → includes c s ≡ false → Lacks c s
includes-Lacks c [] h = tt
includes-Lacks c (x ∷ s) h = (ground arith, includes-Lacks c s (ground arith))

create-parts :
    (capacity : ℕ) (stream_id : Text) (log : EventLog)
    → create capacity stream_id ≡ some log
    → (log.capacity ≡ capacity)
      × (log.stream_id ≡ stream_id)
      × (log.latest_sequence ≡ 0)
      × (includes sequence_separator stream_id ≡ false)
unfolding create
create-parts capacity stream_id log h = ground arith

all_digits_of : (s : Text) → All IsDigit s → all_digits s ≡ true
all_digits_of [] h = refl
all_digits_of (c ∷ s) h = ground (arith, all_digits_of s h.1)

is_number_of : (s : Text) → All IsDigit s → HasHead s → is_number s ≡ true
is_number_of [] h k = elim k [ ]
is_number_of (c ∷ s) h k = ground (arith, all_digits_of s h.1)

parse_sequence-print : (n : ℕ) → 1 ≤ n → n ≤ max_safe_integer → parse_sequence (print n) ≡ some n
unfolding parse_sequence
parse_sequence-print n low high =
    ground (arith, is_number_of (print n) (print-IsDigit n) (print-HasHead n), read-print n)

since-cursor :
    (log : EventLog) (stream : Text) (n : ℕ)
    → includes sequence_separator stream ≡ false
    → 1 ≤ n
    → n ≤ max_safe_integer
    → since (some (stream ++ (sequence_separator ∷ print n))) log
      ≡ (if text_eq stream log.stream_id then resume n log else reset unknown_stream)
unfolding since
since-cursor log stream n h low high =
    rw
      (
        cut-append sequence_separator stream (print n) (includes-Lacks sequence_separator stream h),
        since,
      )
      (ground (arith, parse_sequence-print n low high))

append_all-cursor :
    (capacity : ℕ) (stream_id : Text) (log : EventLog) (es : List (Text × Text))
    → (i : ℕ) (m : StreamMessage) → create capacity stream_id ≡ some log
    → get_elem? (append_all es log).1 i ≡ some m
    → m.id ≡ stream_id ++ (sequence_separator ∷ print (suc i))
append_all-cursor capacity stream_id log es i m built at =
    let (same_capacity, same_stream, fresh, pure) = create-parts capacity stream_id log built in
    append_all-id es log i m at
    ∙ ap (λ (s : Text). s ++ (sequence_separator ∷ print (suc i + log.latest_sequence))) same_stream
    ∙ ap (λ (n : ℕ). stream_id ++ (sequence_separator ∷ print n)) (omega (arith, fresh))

-- A log with a valid capacity and stream id took any events. A client whose cursor is the id of the
-- `i`-th returned message (counted from 0) is told: nothing is missing, if it is the last; that its
-- cursor expired, if more than `capacity` messages came after it; and otherwise it gets exactly the
-- messages after it, in order. The ids stay within the safe integers.
pub since-append_all :
    (capacity : ℕ) (stream_id : Text) (log : EventLog) (es : List (Text × Text))
    → (i : ℕ) (m : StreamMessage) → create capacity stream_id ≡ some log
    → get_elem? (append_all es log).1 i ≡ some m
    → suc i ≤ max_safe_integer
    → since (some m.id) (append_all es log).0 ≡ answer capacity (suc i) (append_all es log).1
since-append_all capacity stream_id log es i m built at safe =
    let (same_capacity, same_stream, fresh, pure) = create-parts capacity stream_id log built in
    let (cap', sid') = append_all_keeps es log in
    let after = (append_all es log).0 in
    let ms = (append_all es log).1 in
    let cursor = append_all-cursor capacity stream_id log es i m built at in
    let mine : text_eq stream_id after.stream_id ≡ true =
      (text_eq_iff stream_id after.stream_id).1 (sym (sid' ∙ same_stream)) in
    rw (cursor, since-cursor after stream_id (suc i) pure (omega arith) safe, mine)
      (resume-answer ms after i (create-append_all-IsRing capacity stream_id log es built)
        ∙ ap (λ (c : ℕ). answer c (suc i) ms) (cap' ∙ same_capacity))

text_ne : (a b : Text) → a ≢ b → text_eq a b ≡ false
text_ne a b h = elim (Bool-cases (text_eq a b)) [
  | inl same ↦ absurd (h ((text_eq_iff a b).0 same))
  | inr differ ↦ differ
]

-- A cursor that another log issued, one with another stream id, never resumes: after any events the
-- client is told that the stream is unknown.
pub since_foreign :
    (capacity : ℕ) (stream_id : Text) (log : EventLog) (es : List (Text × Text))
    → (other : EventLog) (theirs : List (Text × Text)) (i : ℕ) (m : StreamMessage)
    → (other_capacity : ℕ) (other_id : Text) → create capacity stream_id ≡ some log
    → create other_capacity other_id ≡ some other
    → other_id ≢ stream_id
    → get_elem? (append_all theirs other).1 i ≡ some m
    → suc i ≤ max_safe_integer
    → since (some m.id) (append_all es log).0 ≡ reset unknown_stream
since_foreign capacity stream_id log es other theirs i m other_capacity other_id built alien apart
      at safe =
    let after = (append_all es log).0 in
    let mine : after.stream_id ≡ stream_id =
      (append_all_keeps es log).1 ∙ (create-parts capacity stream_id log built).1 in
    let pure = (create-parts other_capacity other_id other alien).3 in
    rw
      (
        append_all-cursor other_capacity other_id other theirs i m alien at,
        since-cursor after other_id (suc i) pure (omega arith) safe,
        text_ne other_id after.stream_id (λ e. apart (e ∙ mine)),
      )
      refl
