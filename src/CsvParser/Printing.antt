-- ===== src/CsvParser/Printing.antt =====
-- src/streams/csv-parser.ts on rows that are written with every field in quotes, each quote in it doubled.
use mathlib.Core.List.{append_assoc, append-nil}
use boilerplate_express_ts.Prelude.{
  ℕ, suc, ◌+◌, ◌≤◌, ◌≡◌, refl, ◌∙◌, inl, inr, true, false, List, [], ◌∷◌, ◌++◌, ltb, ◌==◌,
  if◌then◌else◌, length, Text, arith, Bool-cases,
}
use boilerplate_express_ts.CsvParser.{
  CsvParser, CsvRecord, State, ok, field_start, quoted, after_quote, append, close_field,
  close_record, newlines, lf,
}
use boilerplate_express_ts.CsvParser.Reference.{
  feed, step, step_line, step_field, step_quoted, step_after_quote,
}

abbrev pub escape : ℕ → Text → Text
escape q [] = []
escape q (c ∷ s) = let rest = escape q s in if c == q then q ∷ q ∷ rest else c ∷ rest

-- A field in quotes, and what follows it.
abbrev pub print_field : ℕ → Text → Text → Text
print_field q field rest = q ∷ (escape q field ++ (q ∷ rest))

-- A record has a first field, so it is no blank line.
abbrev pub print_record : ℕ → ℕ → Text → List Text → Text → Text
print_record d q field [] rest = print_field q field (lf ∷ rest)
print_record d q field (next ∷ fields) rest =
    print_field q field (d ∷ print_record d q next fields rest)

abbrev pub Row : Type 0
Row = Text × List Text

abbrev pub print_rows : ℕ → ℕ → List Row → Text
print_rows d q [] = []
print_rows d q ((field, fields) ∷ rows) = print_record d q field fields (print_rows d q rows)

abbrev pub total : (Text → ℕ) → List Text → ℕ
total f [] = 0
total f (s ∷ ss) = f s + total f ss

-- The records that the rows are, the first of them on line `l`.
abbrev pub numbered : ℕ → List Row → List CsvRecord
numbered l [] = []
numbered l ((field, fields) ∷ rows) =
    record { line = l; fields = field ∷ fields }
    ∷ numbered (l + total newlines (field ∷ fields) + 1) rows

self_test : (a : ℕ) → (a == a) ≡ true
self_test a = ground arith

fits_test : (m n k : ℕ) → n + suc k ≤ m → ltb m (n + 1) ≡ false
fits_test m n k h = ground arith

-- At the start of a field.
abbrev pub ready : CsvParser → CsvParser
ready p = record p { state = field_start; field = []; pending_cr = false; at_start = false }

module _ (p : CsvParser) (apart : p.delimiter == p.quote ≡ false) (visible : lf == p.quote ≡ false)
    (inline : lf == p.delimiter ≡ false) where
  abbrev inside : State → Text → ℕ → ℕ → CsvParser
  inside st field n l = record p {
    state = st;
    field = field;
    line = l;
    record_chars = n;
    record_touched = true;
    pending_cr = false;
    at_start = false;
  }

  step_content :
      (c : ℕ) (field : Text) (n k l : ℕ)
      → c == p.quote ≡ false
      → n + suc k ≤ p.max_record_chars
      → step c (inside quoted field n l)
        ≡ ok (inside quoted (field ++ c ∷ []) (n + 1) (l + (if c == lf then 1 else 0)))
  unfolding step step_line step_field step_quoted append
  step_content c field n k l e h = rw (e, fits_test p.max_record_chars n k h) refl

  step_closing :
      (field : Text) (n l : ℕ)
      → step p.quote (inside quoted field n l) ≡ ok (inside after_quote field n l)
  unfolding step step_line step_field step_quoted
  step_closing field n l = rw (self_test p.quote) refl

  step_doubled :
      (field : Text) (n k l : ℕ)
      → n + suc k ≤ p.max_record_chars
      → step p.quote (inside after_quote field n l)
        ≡ ok (inside quoted (field ++ p.quote ∷ []) (n + 1) l)
  unfolding step step_line step_field step_after_quote append
  step_doubled field n k l h = rw (self_test p.quote, fits_test p.max_record_chars n k h) refl

  feed-escape :
      (s rest field : Text) (n l : ℕ)
      → n + length s ≤ p.max_record_chars
      → feed (escape p.quote s ++ (p.quote ∷ rest)) (inside quoted field n l)
        ≡ feed rest (inside after_quote (field ++ s) (n + length s) (l + newlines s))
  unfolding feed
  feed-escape [] rest field n l h =
      let a : n + 0 ≡ n = omega arith in
      let b : l + 0 ≡ l = omega arith in rw (step_closing field n l, append-nil field, a, b) refl
  feed-escape (c ∷ s) rest field n l h =
      let a : n + 1 + length s ≡ n + suc (length s) = omega arith in
      elim (Bool-cases (c == p.quote)) [
        | inl e ↦
            let same : c ≡ p.quote = ground arith in
            let b : (c == lf) ≡ false = ground arith in
            let z : l + newlines s ≡ l + (0 + newlines s) = omega arith in
            rw (e, b, step_closing field n l, step_doubled field n (length s) l h)
              (feed-escape s rest (field ++ p.quote ∷ []) (n + 1) l (omega arith)
                ∙ rw (a, z, append_assoc field (p.quote ∷ []) s, same) refl)
        | inr e ↦
            let m = l + (if c == lf then 1 else 0) in
            let b : m + newlines s ≡ l + ((if c == lf then 1 else 0) + newlines s) = omega arith in
            rw (e, step_content c field n (length s) l e h)
              (feed-escape s rest (field ++ c ∷ []) (n + 1) m (omega arith)
                ∙ rw (a, b, append_assoc field (c ∷ []) s) refl)
      ]

  step_delimiter :
      (field : Text) (n l : ℕ)
      → step p.delimiter (inside after_quote field n l)
        ≡ ok (close_field (inside after_quote field n l))
  unfolding step step_line step_field step_after_quote
  step_delimiter field n l = rw (apart, self_test p.delimiter) refl

  step_break :
      (field : Text) (n l : ℕ)
      → step lf (inside after_quote field n l) ≡ ok (close_record (inside after_quote field n l))
  unfolding step step_line step_field step_after_quote
  step_break field n l = rw (visible, inline) refl

  step_opening : step p.quote (ready p) ≡ ok (inside quoted [] p.record_chars p.line)
  unfolding step step_line step_field
  step_opening = rw (self_test p.quote) refl

  feed-print_field :
      (s rest : Text)
      → p.record_chars + length s ≤ p.max_record_chars
      → feed (print_field p.quote s rest) (ready p)
        ≡ feed rest (inside after_quote s (p.record_chars + length s) (p.line + newlines s))
  unfolding feed
  feed-print_field s rest h = rw (step_opening) (feed-escape s rest [] p.record_chars p.line h)

abbrev pub IsWritable : CsvParser → Type 0
IsWritable p =
    (p.delimiter == p.quote ≡ false) × ((lf == p.quote ≡ false) × (lf == p.delimiter ≡ false))

abbrev pub ended : CsvParser → Text → List Text → CsvParser
ended p field fields =
    let next = p.line + total newlines (field ∷ fields) + 1 in
    record p {
      fields = [];
      line = next;
      record_line = next;
      record_touched = false;
      record_chars = 0;
      pushed =
          p.pushed ++ record { line = p.record_line; fields = p.fields ++ field ∷ fields } ∷ [];
    }

pub feed-print_record :
    (field : Text) (fields : List Text) (rest : Text) (p : CsvParser)
    → IsWritable p
    → p.record_chars + total length (field ∷ fields) ≤ p.max_record_chars
    → feed (print_record p.delimiter p.quote field fields rest) (ready p)
      ≡ feed rest (ready (ended p field fields))
unfolding feed close_field close_record
feed-print_record field [] rest p w h =
    let a : p.line + newlines field + 1 ≡ p.line + (newlines field + 0) + 1 = omega arith in
    feed-print_field p w.0 w.1.0 w.1.1 field (lf ∷ rest) (omega arith)
    ∙ rw
        (
          step_break p w.0 w.1.0 w.1.1 field (p.record_chars + length field)
              (p.line + newlines field),
          a,
        )
        refl
feed-print_record field (next ∷ fields) rest p w h =
    let n = p.record_chars + length field in
    let l = p.line + newlines field in
    let a : l + total newlines (next ∷ fields) + 1
        ≡ p.line + total newlines (field ∷ next ∷ fields) + 1 =
      omega arith in
    let q : CsvParser = record p {
      fields = p.fields ++ field ∷ [];
      line = l;
      record_chars = n;
      record_touched = true;
    } in
    feed-print_field p w.0 w.1.0 w.1.1 field _ (omega arith)
    ∙ rw (step_delimiter p w.0 w.1.0 w.1.1 field n l) (
        feed-print_record next fields rest q w (omega arith)
        ∙ rw (a, append_assoc p.fields (field ∷ []) (next ∷ fields)) refl)
