-- ===== src/CsvParser.antt =====
-- src/streams/csv-parser.ts, from the decoded text on: the bytes of a chunk are decoded by Node's
-- StringDecoder, and the records that are pushed downstream are kept in `pushed`, oldest first. The
-- loops read what is left of the input instead of an index into it.
pub mod Reference
pub mod Runs
pub mod QuotedRuns
pub mod Rounds
pub mod Advance
pub mod Chunks
pub mod Printing
pub mod ReadBack
mod Tests
use boilerplate_express_ts.Prelude.{
  ℕ, zero, suc, ◌+◌, ◌*◌, Bool, true, false, ◌||◌, Option, none, some, List, [], ◌∷◌, ◌++◌, ltb,
  ◌==◌, if◌then◌else◌, length, Text,
}

pub record CsvRecord : Type 0 where
  pub line : ℕ
  pub fields : List Text

pub data State : Type 0 where
  field_start unquoted quoted after_quote : State

-- `CsvParseError`, with the line that it names.
pub data CsvParseError : Type 0 where
  unterminated_quote invalid_quote record_too_large : ℕ → CsvParseError

pub record CsvParser : Type 0 where
  pub delimiter : ℕ
  pub quote : ℕ
  pub max_record_chars : ℕ
  pub state : State
  pub field : Text
  pub fields : List Text
  pub line : ℕ
  pub record_line : ℕ
  pub record_touched : Bool
  pub record_chars : ℕ
  pub pending_cr : Bool
  pub at_start : Bool
  pub pushed : List CsvRecord

-- `none` is a `RangeError` of the constructor; the options are single characters by their type.
unfoldable pub create : ℕ → ℕ → ℕ → Option CsvParser
create delimiter quote max_record_chars =
    if delimiter == quote
    then none
    else some (record {
      delimiter = delimiter;
      quote = quote;
      max_record_chars = max_record_chars;
      state = field_start;
      field = [];
      fields = [];
      line = 1;
      record_line = 1;
      record_touched = false;
      record_chars = 0;
      pending_cr = false;
      at_start = true;
      pushed = [];
    })

-- An error ends the stream; the records that were pushed before it stay pushed.
pub data Outcome : Type 0 where
  ok : CsvParser → Outcome
  failed : CsvParseError → List CsvRecord → Outcome

infixl 5 ◌>>=◌
abbrev pub ◌>>=◌ : Outcome → (CsvParser → Outcome) → Outcome
ok p >>= f = f p
failed e out >>= f = failed e out

-- A reader's result: the input that is left, and the parser.
pub data Read : Type 0 where
  at : Text → CsvParser → Read
  broke : CsvParseError → List CsvRecord → Read

abbrev pub read_on : Outcome → (CsvParser → Read) → Read
read_on (ok p) f = f p
read_on (failed e out) f = broke e out

abbrev pub lf : ℕ
lf = 10

abbrev pub cr : ℕ
cr = 13

unfoldable pub append : Text → CsvParser → Outcome
append text p =
    let chars = p.record_chars + length text in
    if ltb p.max_record_chars chars
    then failed (record_too_large p.record_line) p.pushed
    else ok (record p { record_chars = chars; field = p.field ++ text })

unfoldable pub close_field : CsvParser → CsvParser
close_field p = record p { fields = p.fields ++ p.field ∷ []; field = []; state = field_start }

abbrev pub reset_record : CsvParser → CsvParser
reset_record p = record p {
  field = [];
  fields = [];
  state = field_start;
  record_touched = false;
  record_chars = 0;
  record_line = p.line;
}

-- A line with nothing on it is no record.
unfoldable pub close_record : CsvParser → CsvParser
close_record p =
    let counted = record p { line = p.line + 1 } in
    if p.record_touched
    then record (reset_record counted) {
      pushed = p.pushed ++ record { line = p.record_line; fields = p.fields ++ p.field ∷ [] } ∷ [];
    }
    else reset_record counted

unfoldable pub terminate : ℕ → Text → CsvParser → Read
terminate c [] p =
    if c == lf then at [] (close_record p) else at [] (record p { pending_cr = true })
terminate c (d ∷ s) p =
    if c == lf
    then at (d ∷ s) (close_record p)
    else if d == lf
    then at s (close_record p)
    else at (d ∷ s) (close_record p)

-- The longest prefix without a character that stops the scan, and the rest.
unfoldable pub span : (ℕ → Bool) → Text → Text × Text
span stops [] = ([], [])
span stops (c ∷ s) =
    let rest = span stops s in if stops c then ([], c ∷ s) else (c ∷ rest.0, rest.1)

abbrev pub ends_unquoted : CsvParser → ℕ → Bool
ends_unquoted p c = c == p.delimiter || (c == lf || c == cr)

abbrev pub touch : CsvParser → CsvParser
touch p = record p { record_touched = true }

abbrev pub append_run : Text → CsvParser → Outcome
append_run [] p = ok p
append_run (c ∷ run) p = append (c ∷ run) p

abbrev pub touch_run : Text → CsvParser → CsvParser
touch_run [] p = p
touch_run (c ∷ run) p = touch p

unfoldable pub finish_unquoted : Text → CsvParser → Read
finish_unquoted [] p = at [] p
finish_unquoted (c ∷ s) p =
    if c == p.delimiter then at s (close_field (touch p)) else terminate c s p

unfoldable pub read_unquoted : Text → CsvParser → Read
unfolding finish_unquoted
read_unquoted s p =
    let (run, rest) = span (ends_unquoted p) s in
    read_on (append_run run (touch_run run p)) (finish_unquoted rest)

abbrev pub newlines : Text → ℕ
newlines [] = 0
newlines (c ∷ s) = (if c == lf then 1 else 0) + newlines s

unfoldable pub finish_quoted : Text → CsvParser → Read
finish_quoted [] p = at [] p
finish_quoted (c ∷ s) p = at s (record p { state = after_quote })

unfoldable pub read_quoted : Text → CsvParser → Read
unfolding finish_quoted
read_quoted s p =
    let (run, rest) = span (λ c. c == p.quote) s in
    read_on (append_run run (record p { line = p.line + newlines run })) (finish_quoted rest)

unfoldable pub read_field_start : ℕ → Text → CsvParser → Read
read_field_start c s p =
    if c == p.quote
    then at s (record (touch p) { state = quoted })
    else at (c ∷ s) (record p { state = unquoted })

unfoldable pub read_after_quote : ℕ → Text → CsvParser → Read
read_after_quote c s p =
    if c == p.quote
    then read_on (append (p.quote ∷ []) p) (λ q. at s (record q { state = quoted }))
    else if c == p.delimiter
    then at s (close_field p)
    else if c == lf || c == cr
    then terminate c s (record p { state = field_start })
    else broke (invalid_quote p.line) p.pushed

-- The `switch` of the loop.
unfoldable pub read_state : ℕ → Text → CsvParser → Read
read_state c s p = elim p.state [
  | field_start ↦ read_field_start c s p
  | unquoted ↦ read_unquoted (c ∷ s) p
  | quoted ↦ read_quoted (c ∷ s) p
  | after_quote ↦ read_after_quote c s p
]

-- One round of the loop, a pending carriage return first.
unfoldable pub round : ℕ → Text → CsvParser → Read
round c s p =
    if p.pending_cr
    then (let closed = close_record (record p { pending_cr = false }) in
        if c == lf then at s closed else read_state c s closed)
    else read_state c s p

abbrev pub follow : (Text → CsvParser → Option Outcome) → Read → Option Outcome
follow next (at rest p) = next rest p
follow next (broke e out) = some (failed e out)

-- `none` means that the fuel ran out.
unfoldable pub loop : ℕ → Text → CsvParser → Option Outcome
loop fuel [] p = some (ok p)
loop zero (c ∷ s) p = none
loop (suc fuel) (c ∷ s) p = follow (loop fuel) (round c s p)

abbrev pub byte_order_mark : ℕ
byte_order_mark = 65279

abbrev pub strip_bom : Text → Text
strip_bom [] = []
strip_bom (c ∷ s) = if c == byte_order_mark then s else c ∷ s

-- The input of the loop, and the parser that it starts from.
abbrev pub open_input : Text → CsvParser → Text × CsvParser
open_input text p =
    if p.at_start then (strip_bom text, record p { at_start = false }) else (text, p)

-- Two rounds for each character are enough.
unfoldable pub consume : Text → CsvParser → Option Outcome
consume [] p = some (ok p)
consume (c ∷ s) p = let (input, q) = open_input (c ∷ s) p in loop (2 * length input) input q

-- `_flush`, after the decoder's last text.
unfoldable pub flush : CsvParser → Outcome
flush p =
    let closed = if p.pending_cr then close_record (record p { pending_cr = false }) else p in
    elim closed.state [
      | quoted ↦ failed (unterminated_quote closed.record_line) closed.pushed
      | _ ↦ ok (if closed.record_touched then close_record closed else closed)
    ]
