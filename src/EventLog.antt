-- ===== src/EventLog.antt =====
-- src/sse/event-log.ts: the ring of recent events that a client can resume from. A slot that was
-- never written is `none`. The random stream id is an argument.
pub mod Ring
pub mod Resume
mod Tests
use boilerplate_express_ts.Prelude.{
  ℕ, zero, suc, ◌+◌, ◌-◌, ◌%◌, max, Bool, true, false, ◌&&◌, ◌||◌, not, Option, none, some, List,
  [], ◌∷◌, ◌++◌, ltb, leb, ◌==◌, if◌then◌else◌, get_elem?, set, replicate, Text, text_eq, print,
  read, is_digit,
}
use boilerplate_express_ts.Prelude.Scan.{cut}

pub record StreamMessage : Type 0 where
  pub id : Text
  pub event : Text
  pub body : Text

pub data ResumeResetReason : Type 0 where
  expired unknown_stream malformed : ResumeResetReason

pub data ResumeOutcome : Type 0 where
  live : ResumeOutcome
  replay : List StreamMessage → ResumeOutcome
  reset : ResumeResetReason → ResumeOutcome

pub record EventLog : Type 0 where
  pub slots : List (Option StreamMessage)
  pub capacity : ℕ
  pub stream_id : Text
  pub latest_sequence : ℕ

abbrev pub sequence_separator : ℕ
sequence_separator = b':'

abbrev pub includes : ℕ → Text → Bool
includes c [] = false
includes c (x ∷ s) = x == c || includes c s

-- `none` is a `RangeError` of the constructor.
unfoldable pub create : ℕ → Text → Option EventLog
create capacity stream_id =
    if ltb capacity 1 || includes sequence_separator stream_id
    then none
    else some (record {
      slots = replicate capacity none;
      capacity = capacity;
      stream_id = stream_id;
      latest_sequence = 0;
    })

abbrev pub id_for : EventLog → ℕ → Text
id_for log sequence = log.stream_id ++ (sequence_separator ∷ print sequence)

abbrev pub latest_event_id : EventLog → Option Text
latest_event_id log =
    if log.latest_sequence == 0 then none else some (id_for log log.latest_sequence)

abbrev pub oldest_sequence : EventLog → ℕ
oldest_sequence log = max 1 (log.latest_sequence + 1 - log.capacity)

unfoldable pub append : Text → Text → EventLog → EventLog × StreamMessage
append event body log =
    let sequence = suc log.latest_sequence in
    let message : StreamMessage = record { id = id_for log sequence; event = event; body = body } in
    (
      record log {
        latest_sequence = sequence;
        slots = set log.slots (sequence % log.capacity) (some message);
      },
      message,
    )

abbrev all_digits : Text → Bool
all_digits [] = true
all_digits (c ∷ s) = is_digit c && all_digits s

abbrev is_number : Text → Bool
is_number [] = false
is_number (c ∷ s) = is_digit c && all_digits s

abbrev pub max_safe_integer : ℕ
max_safe_integer = 9007199254740991

-- `slots[i]`, and what the loop of `since` does with it.
abbrev push_slot : Option (Option StreamMessage) → List StreamMessage → List StreamMessage
push_slot (some (some m)) ms = m ∷ ms
push_slot _ ms = ms

-- The loop of `since`: `count` more messages, from the sequence `next` on.
unfoldable pub collect : EventLog → ℕ → ℕ → List StreamMessage
collect log next zero = []
collect log next (suc count) =
    push_slot (get_elem? log.slots (next % log.capacity)) (collect log (suc next) count)

resume : ℕ → EventLog → ResumeOutcome
resume sequence log =
    if leb log.latest_sequence sequence
    then live
    else if ltb (sequence + 1) (oldest_sequence log)
    then reset expired
    else replay (collect log (sequence + 1) (log.latest_sequence - sequence))

parse_sequence : Text → Option ℕ
parse_sequence raw =
    if is_number raw && (leb (read raw) max_safe_integer && leb 1 (read raw))
    then some (read raw)
    else none

unfoldable pub since : Option Text → EventLog → ResumeOutcome
unfolding resume parse_sequence
since none log = live
since (some last_event_id) log = elim (cut sequence_separator last_event_id) [
  | none ↦ reset malformed
  | some (stream, raw) ↦
      if text_eq stream log.stream_id
      then elim (parse_sequence raw) [
        | none ↦ reset malformed
        | some sequence ↦ resume sequence log
      ]
      else reset unknown_stream
]
