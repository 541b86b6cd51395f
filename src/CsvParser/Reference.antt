-- ===== src/CsvParser/Reference.antt =====
-- src/streams/csv-parser.ts as an automaton that takes one character at a time, with no input to
-- look ahead in and no runs.
use boilerplate_express_ts.Prelude.{
  ℕ, ◌+◌, ◌≡◌, refl, ap, sym, ◌∙◌, true, false, [], ◌∷◌, ◌++◌, ◌==◌, if◌then◌else◌, Text,
}
use boilerplate_express_ts.CsvParser.{
  CsvParser, Outcome, ok, failed, ◌>>=◌, field_start, unquoted, quoted, after_quote, invalid_quote,
  append, close_field, close_record, touch, lf, cr, byte_order_mark,
}

-- A character of an unquoted field, its delimiter or its line break.
unfoldable pub step_unquoted : ℕ → CsvParser → Outcome
step_unquoted c p =
    if c == p.delimiter
    then ok (close_field (touch p))
    else if c == lf
    then ok (close_record p)
    else if c == cr
    then ok (record p { pending_cr = true })
    else append (c ∷ []) (touch p)

unfoldable pub step_quoted : ℕ → CsvParser → Outcome
step_quoted c p =
    if c == p.quote
    then ok (record p { state = after_quote })
    else append (c ∷ []) (record p { line = p.line + (if c == lf then 1 else 0) })

unfoldable pub step_after_quote : ℕ → CsvParser → Outcome
step_after_quote c p =
    if c == p.quote
    then append (p.quote ∷ []) p >>= (λ q. ok (record q { state = quoted }))
    else if c == p.delimiter
    then ok (close_field p)
    else if c == lf
    then ok (close_record p)
    else if c == cr
    then ok (record p { state = field_start; pending_cr = true })
    else failed (invalid_quote p.line) p.pushed

unfoldable pub step_field : ℕ → CsvParser → Outcome
step_field c p = elim p.state [
  | field_start ↦
      if c == p.quote
      then ok (record (touch p) { state = quoted })
      else step_unquoted c (record p { state = unquoted })
  | unquoted ↦ step_unquoted c p
  | quoted ↦ step_quoted c p
  | after_quote ↦ step_after_quote c p
]

-- A line feed after a carriage return belongs to it.
unfoldable pub step_line : ℕ → CsvParser → Outcome
step_line c p =
    if p.pending_cr
    then (let closed = close_record (record p { pending_cr = false }) in
        if c == lf then ok closed else step_field c closed)
    else step_field c p

-- The first character of all may be a byte order mark.
unfoldable pub step : ℕ → CsvParser → Outcome
step c p =
    if p.at_start
    then (let opened = record p { at_start = false } in
        if c == byte_order_mark then ok opened else step_line c opened)
    else step_line c p

unfoldable pub feed : Text → CsvParser → Outcome
feed [] p = ok p
feed (c ∷ s) p = step c p >>= feed s

pub >>=-assoc : (o : Outcome) (f g : CsvParser → Outcome) → o >>= f >>= g ≡ o >>= (λ p. f p >>= g)
>>=-assoc (ok p) f g = refl
>>=-assoc (failed e out) f g = refl

pub feed-append : (a b : Text) (p : CsvParser) → feed (a ++ b) p ≡ feed a p >>= feed b
unfolding feed
feed-append [] b p = refl
feed-append (c ∷ a) b p =
    ap (λ f. step c p >>= f) (λ i q. feed-append a b q i)
    ∙ sym (>>=-assoc (step c p) (feed a) (feed b))
