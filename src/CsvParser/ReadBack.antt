-- ===== src/CsvParser/ReadBack.antt =====
-- src/streams/csv-parser.ts, from its constructor to its flush, on rows written by Printing.antt.
use mathlib.Core.List.{append_assoc, append-nil}
use boilerplate_express_ts.Prelude.{
  ℕ, ◌+◌, ◌≤◌, ◌≡◌, refl, ◌∙◌, Bool, true, false, Option, none, some, List, [], ◌∷◌, ◌++◌, ◌==◌,
  length, Text, All, arith,
}
use boilerplate_express_ts.CsvParser.{
  CsvParser, CsvRecord, Outcome, ok, field_start, newlines, lf, create, flush, byte_order_mark,
}
use boilerplate_express_ts.CsvParser.Reference.{feed, step}
use boilerplate_express_ts.CsvParser.Chunks.{join, consume_all, consume_all-feed, and_then}
use boilerplate_express_ts.CsvParser.Printing.{
  Row, print_rows, numbered, total, ready, IsWritable, feed-print_record,
}

abbrev IsSmall : ℕ → Row → Type 0
IsSmall m (field, fields) = total length (field ∷ fields) ≤ m

abbrev after_rows : ℕ → List Row → ℕ
after_rows l [] = l
after_rows l ((field, fields) ∷ rows) = after_rows (l + total newlines (field ∷ fields) + 1) rows

-- Between two records, on line `l` and with the records `out` pushed.
abbrev between : CsvParser → ℕ → List CsvRecord → CsvParser
between p l out = record p {
  fields = [];
  line = l;
  record_line = l;
  record_touched = false;
  record_chars = 0;
  pushed = out;
}

feed-print_rows :
    (rows : List Row) (p : CsvParser) (l : ℕ) (out : List CsvRecord)
    → IsWritable p
    → All (IsSmall p.max_record_chars) rows
    → feed (print_rows p.delimiter p.quote rows) (ready (between p l out))
      ≡ ok (ready (between p (after_rows l rows) (out ++ numbered l rows)))
unfolding feed
feed-print_rows [] p l out w h = rw (append-nil out) refl
feed-print_rows ((field, fields) ∷ rows) p l out w h =
    let next = l + total newlines (field ∷ fields) + 1 in
    let r : CsvRecord = record { line = l; fields = field ∷ fields } in
    feed-print_record field fields (print_rows p.delimiter p.quote rows) (between p l out) w
      (omega (arith, h.0))
    ∙ (feed-print_rows rows p next (out ++ r ∷ []) w h.1
        ∙ rw (append_assoc out (r ∷ []) (numbered next rows)) refl)

feed_opening :
    (c : ℕ) (s : Text) (p : CsvParser)
    → c == byte_order_mark ≡ false
    → feed (c ∷ s) (record p { at_start = true }) ≡ feed (c ∷ s) (record p { at_start = false })
unfolding feed step
feed_opening c s p h = rw h refl

-- The records of an input that comes in chunks; `none` is an error.
abbrev parsed : Option Outcome → Option (List CsvRecord)
parsed (some (ok p)) = some p.pushed
parsed _ = none

unfoldable pub parse_all : ℕ → ℕ → ℕ → List Text → Option (List CsvRecord)
parse_all delimiter quote max_record_chars chunks = elim (create delimiter quote max_record_chars) [
  | none ↦ none
  | some p ↦ parsed (and_then (consume_all chunks p) λ q. some (flush q))
]

abbrev pub fresh : ℕ → ℕ → ℕ → CsvParser
fresh d q m = record {
  delimiter = d;
  quote = q;
  max_record_chars = m;
  state = field_start;
  field = [];
  fields = [];
  line = 1;
  record_line = 1;
  record_touched = false;
  record_chars = 0;
  pending_cr = false;
  at_start = true;
  pushed = [];
}

create-fresh : (d q m : ℕ) → d == q ≡ false → create d q m ≡ some (fresh d q m)
unfolding create
create-fresh d q m apart = rw apart refl

flush-between :
    (d q m l : ℕ) (out : List CsvRecord) (b : Bool)
    → parsed (some (flush (record (between (fresh d q m) l out) { at_start = b }))) ≡ some out
unfolding flush
flush-between d q m l out b = refl

begun_rows :
    (d q m : ℕ) (rows : List Row)
    → IsWritable (fresh d q m)
    → All (IsSmall m) rows
    → parsed (
        and_then
          (some (feed (print_rows d q rows) (record (fresh d q m) { at_start = false })))
          λ p. some (flush p))
      ≡ some (numbered 1 rows)
begun_rows d q m rows w h =
    rw (feed-print_rows rows (fresh d q m) 1 [] w h)
      (flush-between d q m (after_rows 1 rows) (numbered 1 rows) false)

flush_rows :
    (d q m : ℕ) (rows : List Row)
    → IsWritable (fresh d q m)
    → q == byte_order_mark ≡ false
    → All (IsSmall m) rows
    → parsed (and_then (some (feed (print_rows d q rows) (fresh d q m))) λ p. some (flush p))
      ≡ some (numbered 1 rows)
unfolding feed
flush_rows d q m [] w b h = flush-between d q m 1 [] true
flush_rows d q m ((field, []) ∷ rows) w b h =
    rw (feed_opening q _ (fresh d q m) b) (begun_rows d q m ((field, []) ∷ rows) w h)
flush_rows d q m ((field, next ∷ fields) ∷ rows) w b h =
    rw (feed_opening q _ (fresh d q m) b) (begun_rows d q m ((field, next ∷ fields) ∷ rows) w h)

-- Rows that are written with every field in quotes are read back, however the text is cut into chunks:
-- each row is a record of its fields, with the line that it begins on. The delimiter, the quote and
-- the line feed differ, the quote is no byte order mark, and no row is longer than the limit.
pub parse_all-print_rows :
    (d q m : ℕ) (chunks : List Text) (rows : List Row)
    → d == q ≡ false
    → lf == q ≡ false
    → lf == d ≡ false
    → q == byte_order_mark ≡ false
    → All (IsSmall m) rows
    → join chunks ≡ print_rows d q rows
    → parse_all d q m chunks ≡ some (numbered 1 rows)
unfolding parse_all
parse_all-print_rows d q m chunks rows apart visible inline b h e =
    rw (create-fresh d q m apart, parse_all, consume_all-feed chunks (fresh d q m), e)
      (flush_rows d q m rows (apart, (visible, inline)) b h)
