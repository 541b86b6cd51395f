-- ===== src/CsvParser/QuotedRuns.antt =====
-- src/streams/csv-parser.ts: the runs of a quoted field against the automaton of Reference.antt.

use boilerplate_express_ts.Prelude.{
  ℕ, ◌+◌, ◌≡◌, inl, inr, refl, ap, sym, ◌∙◌, true, false, [], ◌∷◌, ◌==◌, if◌then◌else◌, Text, arith,
  Bool-cases,
}
use boilerplate_express_ts.CsvParser.{
  CsvParser, ◌>>=◌, at, read_on, quoted, after_quote, append, lf, span, append_run, newlines,
  finish_quoted, read_quoted,
}
use boilerplate_express_ts.CsvParser.Runs.{
  resume, within, resume-read_on, append->>=, append-cons, appended,
}
use boilerplate_express_ts.CsvParser.Reference.{
  step_quoted, step_field, step_line, step, feed, >>=-assoc,
}

read_quoted_none : (p : CsvParser) → read_quoted [] p ≡ at [] p
unfolding read_quoted span finish_quoted
read_quoted_none p = ap (λ n. at [] (record p { line = n })) (omega arith)

read_quoted-stop :
    (c : ℕ) (s : Text) (p : CsvParser)
    → c == p.quote ≡ true
    → read_quoted (c ∷ s) p ≡ at s (record p { state = after_quote })
unfolding read_quoted span finish_quoted
read_quoted-stop c s p h = let same : p.line + 0 ≡ p.line = omega arith in rw (h, same) refl

read_quoted-run :
    (c : ℕ) (s : Text) (p : CsvParser)
    → c == p.quote ≡ false
    → read_quoted (c ∷ s) p
      ≡ read_on
          (append
            (c ∷ (span (λ d. d == p.quote) s).0)
            (record p { line = p.line + newlines (c ∷ (span (λ d. d == p.quote) s).0) }))
          (finish_quoted (span (λ d. d == p.quote) s).1)
unfolding read_quoted span
read_quoted-run c s p h = rw h refl

read_quoted-lines :
    (s : Text) (p : CsvParser)
    → resume (read_quoted s p)
      ≡ append_run
          (span (λ d. d == p.quote) s).0
          (record p { line = p.line + newlines (span (λ d. d == p.quote) s).0 })
        >>= (λ q. resume (finish_quoted (span (λ d. d == p.quote) s).1 q))
unfolding read_quoted
read_quoted-lines s p =
    let (run, rest) = span (λ d. d == p.quote) s in
    resume-read_on (append_run run (record p { line = p.line + newlines run })) (finish_quoted rest)

pub read_quoted-feed :
    (s : Text) (p : CsvParser)
    → resume (read_quoted s (within p quoted false)) ≡ feed s (within p quoted false)
unfolding feed step step_line step_field step_quoted
read_quoted-feed [] p = rw (read_quoted_none (within p quoted false)) refl
read_quoted-feed (c ∷ s) p = elim (Bool-cases (c == p.quote)) [
  | inl e ↦ rw (read_quoted-stop c s (within p quoted false) e, e) refl
  | inr e ↦
      let begun = within p quoted false in
      let (run, rest) = span (λ d. d == p.quote) s in
      let n = p.line + (if c == lf then 1 else 0) in
      let sum : p.line + newlines (c ∷ run) ≡ n + newlines run = omega arith in
      rw
        (
          read_quoted-run c s begun e,
          e,
          resume-read_on,
          append-cons c run (record begun { line = p.line + newlines (c ∷ run) }),
          >>=-assoc (append (c ∷ []) (record begun { line = p.line + newlines (c ∷ run) }))
              (append_run run),
        )
        (append->>= (c ∷ []) begun (p.line + newlines (c ∷ run)) n
          (λ q. append_run run q >>= (λ x. resume (finish_quoted rest x))) (feed s)
          (rw (sum) (
            sym (read_quoted-lines s (appended (c ∷ []) (record begun { line = n })))
            ∙ read_quoted-feed s (appended (c ∷ []) (record p { line = n })))))
]
