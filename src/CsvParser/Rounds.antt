-- ===== src/CsvParser/Rounds.antt =====
-- src/streams/csv-parser.ts: a round of the loop of `consume` against the automaton of Reference.antt.

use boilerplate_express_ts.Prelude.{
  ℕ, ◌+◌, ◌≡◌, inl, inr, refl, ap, sym, subst, ◌∙◌, Bool, true, false, ◌∷◌, ltb, ◌==◌, Text,
  Bool-cases,
}
use boilerplate_express_ts.CsvParser.{
  CsvParser, State, ◌>>=◌, field_start, unquoted, quoted, after_quote, append, close_record, lf, cr,
  read_field_start, read_after_quote, read_state, round,
}
use boilerplate_express_ts.CsvParser.QuotedRuns.{read_quoted-feed}
use boilerplate_express_ts.CsvParser.Runs.{resume, within, terminate-feed, read_unquoted-feed}
use boilerplate_express_ts.CsvParser.Reference.{step_after_quote, step_field, step_line, step, feed}

close_record-state :
    (p : CsvParser) (a b : State)
    → close_record (within p a false) ≡ close_record (within p b false)
unfolding close_record
close_record-state p a b = refl

read_after_quote-feed :
    (c : ℕ) (s : Text) (p : CsvParser)
    → resume (read_after_quote c s (within p after_quote false))
      ≡ step_after_quote c (within p after_quote false) >>= feed s
unfolding read_after_quote step_after_quote append
read_after_quote-feed c s p = elim (Bool-cases (c == p.quote)) [
  | inl e ↦ elim (Bool-cases (ltb p.max_record_chars (p.record_chars + 1))) [
    | inl f ↦ rw (e, f) refl
    | inr f ↦ rw (e, f) refl
  ]
  | inr e ↦ elim (Bool-cases (c == p.delimiter)) [
    | inl f ↦ rw (e, f) refl
    | inr f ↦ elim (Bool-cases (c == lf)) [
      | inl g ↦
          rw
            (
              e,
              f,
              g,
              terminate-feed c s p field_start,
              g,
              close_record-state p field_start after_quote,
            )
            refl
      | inr g ↦ elim (Bool-cases (c == cr)) [
        | inl k ↦ rw (e, f, g, k, terminate-feed c s p field_start, g) refl
        | inr k ↦ rw (e, f, g, k) refl
      ]
    ]
  ]
]

feed_within :
    (c : ℕ) (s : Text) (p : CsvParser) (st : State)
    → feed (c ∷ s) (within p st false) ≡ step_field c (within p st false) >>= feed s
unfolding feed step step_line
feed_within c s p st = refl

read_state-feed :
    (c : ℕ) (s : Text) (p : CsvParser) (st : State)
    → resume (read_state c s (within p st false)) ≡ step_field c (within p st false) >>= feed s
unfolding read_state read_field_start step_field
read_state-feed c s p field_start = elim (Bool-cases (c == p.quote)) [
  | inl e ↦ rw e refl
  | inr e ↦ rw e (feed_within c s p unquoted)
]
read_state-feed c s p unquoted = read_unquoted-feed (c ∷ s) p ∙ feed_within c s p unquoted
read_state-feed c s p quoted = read_quoted-feed (c ∷ s) p ∙ feed_within c s p quoted
read_state-feed c s p after_quote = read_after_quote-feed c s p

pub closed_within :
    (p : CsvParser) (st : State)
    → within (close_record (within p st false)) field_start false ≡ close_record (within p st false)
unfolding close_record
closed_within p st = elim (Bool-cases p.record_touched) [ inl h ↦ rw h refl | inr h ↦ rw h refl ]

round_within-feed :
    (c : ℕ) (s : Text) (p : CsvParser) (st : State) (b : Bool)
    → resume (round c s (within p st b)) ≡ feed (c ∷ s) (within p st b)
unfolding round feed step step_line
round_within-feed c s p st false = read_state-feed c s p st
round_within-feed c s p st true = elim (Bool-cases (c == lf)) [
  | inl e ↦ rw e refl
  | inr e ↦ rw e (
      subst (λ q. resume (read_state c s q) ≡ step_field c q >>= feed s) (closed_within p st)
        (read_state-feed c s (close_record (within p st false)) field_start))
]

-- A round leaves the reading to be done by the automaton as it is.
pub round-feed :
    (c : ℕ) (s : Text) (p : CsvParser) → p.at_start ≡ false → resume (round c s p) ≡ feed (c ∷ s) p
round-feed c s p h =
    subst (λ q. resume (round c s q) ≡ feed (c ∷ s) q) (ap (λ b. record p { at_start = b }) (sym h))
      (round_within-feed c s p p.state p.pending_cr)
