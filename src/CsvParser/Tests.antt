-- ===== src/CsvParser/Tests.antt =====
-- The CSV parser at concrete inputs, with an apostrophe for its quote.
use boilerplate_express_ts.Prelude.{
  ◌++◌, arith, ◌≡◌, refl, some, List, [], ◌∷◌, false, true, codes, Text,
}
use boilerplate_express_ts.CsvParser.{
  unquoted, ok, consume, append, close_field, close_record, terminate, span, read_unquoted,
  finish_unquoted, finish_quoted, read_quoted, read_field_start, read_after_quote, read_state,
  round, loop,
}
use boilerplate_express_ts.CsvParser.Printing.{Row, print_rows, numbered}
use boilerplate_express_ts.CsvParser.ReadBack.{parse_all, fresh, parse_all-print_rows}
use boilerplate_express_ts.CsvParser.Chunks.{join, consume_all, consume_all-join, consume-feed}
use boilerplate_express_ts.CsvParser.Reference.{feed}

-- A cut within an escaped quote, and one between a carriage return and its line feed.
abbrev chunks : List Text
chunks = codes "a,'x'" ∷ (39 ∷ 121 ∷ 39 ∷ 13 ∷ []) ∷ (10 ∷ codes "b") ∷ []

consume-chunks :
    consume (join chunks) (fresh 44 39 20)
    ≡ some (
        ok (record (fresh 44 39 20) {
          state = unquoted;
          field = codes "b";
          line = 2;
          record_line = 2;
          record_touched = true;
          record_chars = 1;
          at_start = false;
          pushed = record { line = 1; fields = codes "a" ∷ codes "x'y" ∷ [] } ∷ [];
        }))
unfolding consume append close_field close_record terminate span read_unquoted finish_unquoted
    finish_quoted read_quoted read_field_start read_after_quote read_state round loop
consume-chunks = refl

consume-feed_example :
    consume (codes "a,'x'") (fresh 44 39 20) ≡ some (feed (codes "a,'x'") (fresh 44 39 20))
consume-feed_example = consume-feed (codes "a,'x'") (fresh 44 39 20)

consume_all-join_example :
    consume_all chunks (fresh 44 39 20) ≡ consume (join chunks) (fresh 44 39 20)
consume_all-join_example = consume_all-join chunks (fresh 44 39 20)

-- A field with quotes, a delimiter and a line break, an empty field, and a second row.
abbrev rows : List Row
rows = (codes "x'y", (codes "a," ++ (10 ∷ codes "b")) ∷ [] ∷ []) ∷ (codes "z", []) ∷ []

parse_all-print_rows_example :
    parse_all 44 39 20 (print_rows 44 39 rows ∷ []) ≡ some (numbered 1 rows)
parse_all-print_rows_example =
    parse_all-print_rows 44 39 20 (print_rows 44 39 rows ∷ []) rows refl refl refl refl
      (omega arith, (omega arith, tt)) refl
