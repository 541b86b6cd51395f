-- ===== src/CsvParser/Runs.antt =====
-- src/streams/csv-parser.ts: the look ahead and the runs of its readers against the automaton of
-- Reference.antt.
use mathlib.Core.List.{append_assoc}
use boilerplate_express_ts.Prelude.{
  ℕ, suc, ◌+◌, ◌≤◌, ◌≡◌, inl, inr, refl, ap, sym, ◌∙◌, Bool, true, false, ◌||◌, [], ◌∷◌, ◌++◌, ltb,
  ◌==◌, if◌then◌else◌, length, Text, arith, Bool-cases,
}
use boilerplate_express_ts.CsvParser.{
  CsvParser, State, Outcome, ok, failed, ◌>>=◌, Read, at, broke, read_on, unquoted, append,
  close_record, touch, lf, cr, terminate, span, ends_unquoted, append_run, touch_run,
  finish_unquoted, read_unquoted,
}
use boilerplate_express_ts.CsvParser.Reference.{
  step_unquoted, step_field, step_line, step, feed, >>=-assoc,
}

-- What becomes of the parser when the automaton reads what a reader left.
abbrev pub resume : Read → Outcome
resume (at s p) = feed s p
resume (broke e out) = failed e out

pub resume-read_on :
    (o : Outcome) (f : CsvParser → Read) → resume (read_on o f) ≡ o >>= (λ p. resume (f p))
resume-read_on (ok p) f = refl
resume-read_on (failed e out) f = refl

>>=-ok : (o : Outcome) → o >>= ok ≡ o
>>=-ok (ok p) = refl
>>=-ok (failed e out) = refl

over : (m a b : ℕ) → ltb m a ≡ true → a ≤ b → ltb m b ≡ true
over m a b h l = ground arith

abbrev pub appended : Text → CsvParser → CsvParser
appended text p = record p { record_chars = p.record_chars + length text; field = p.field ++ text }

-- What follows an append matters only when it succeeds; the line of the parser does not matter to it.
pub append->>= :
    (text : Text) (p : CsvParser) (m n : ℕ) (f g : CsvParser → Outcome)
    → f (appended text (record p { line = m })) ≡ g (appended text (record p { line = n }))
    → append text (record p { line = m }) >>= f ≡ append text (record p { line = n }) >>= g
unfolding append
append->>= text p m n f g e =
    elim (Bool-cases (ltb p.max_record_chars (p.record_chars + length text))) [
      | inl h ↦ rw h refl
      | inr h ↦ rw h e
    ]

pub append-cons :
    (c : ℕ) (run : Text) (p : CsvParser) → append (c ∷ run) p ≡ append (c ∷ []) p >>= append_run run
unfolding append
append-cons c [] p = sym (>>=-ok (append (c ∷ []) p))
append-cons c (d ∷ run) p =
    let n = p.record_chars in
    let sum : n + 1 + suc (length run) ≡ n + suc (suc (length run)) = omega arith in
    elim (Bool-cases (ltb p.max_record_chars (n + 1))) [
      | inl h ↦
          rw (h, over p.max_record_chars (n + 1) (n + suc (suc (length run))) h (omega arith)) refl
      | inr h ↦ rw (h, sum, append_assoc p.field (c ∷ []) (d ∷ run)) refl
    ]

-- The parser in a state, past the start of the input.
abbrev pub within : CsvParser → State → Bool → CsvParser
within p st b = record p { state = st; pending_cr = b; at_start = false }

step_closed :
    (c : ℕ) (p : CsvParser) (st : State)
    → step c (close_record (within p st false)) ≡ step_field c (close_record (within p st false))
unfolding step step_line close_record
step_closed c p st = elim (Bool-cases p.record_touched) [ inl h ↦ rw h refl | inr h ↦ rw h refl ]

pub terminate-feed :
    (c : ℕ) (s : Text) (p : CsvParser) (st : State)
    → resume (terminate c s (within p st false))
      ≡ (if c == lf then ok (close_record (within p st false)) else ok (within p st true))
        >>= feed s
unfolding terminate feed step step_line
terminate-feed c [] p st = elim (Bool-cases (c == lf)) [ inl e ↦ rw e refl | inr e ↦ rw e refl ]
terminate-feed c (d ∷ s) p st = elim (Bool-cases (c == lf)) [
  | inl e ↦ rw e refl
  | inr e ↦ elim (Bool-cases (d == lf)) [
    | inl f ↦ rw (e, f) refl
    | inr f ↦ rw (e, f) (ap (λ o. o >>= feed s) (step_closed d p st))
  ]
]

-- A run of an unquoted field is its characters one at a time.
touched_run :
    (run : Text) (p : CsvParser)
    → append_run run (touch_run run (touch p)) ≡ append_run run (touch p)
touched_run [] p = refl
touched_run (c ∷ run) p = refl

or_last : (a b c : Bool) → a || (b || c) ≡ true → a ≡ false → b ≡ false → c ≡ true
or_last true b c h e f = cc
or_last false true c h e f = cc
or_last false false c h e f = h

or_none : (a b c : Bool) → a || (b || c) ≡ false → (a ≡ false) × (b ≡ false) × (c ≡ false)
or_none true b c h = cc
or_none false true c h = cc
or_none false false c h = (refl, refl, h)

read_unquoted-stop :
    (c : ℕ) (s : Text) (p : CsvParser)
    → ends_unquoted p c ≡ true
    → read_unquoted (c ∷ s) p ≡ finish_unquoted (c ∷ s) p
unfolding read_unquoted span
read_unquoted-stop c s p h = rw h refl

read_unquoted-run :
    (c : ℕ) (s : Text) (p : CsvParser)
    → ends_unquoted p c ≡ false
    → read_unquoted (c ∷ s) p
      ≡ read_on
          (append (c ∷ (span (ends_unquoted p) s).0) (touch p))
          (finish_unquoted (span (ends_unquoted p) s).1)
unfolding read_unquoted span
read_unquoted-run c s p h = rw h refl

finish_unquoted-step :
    (c : ℕ) (s : Text) (p : CsvParser)
    → ends_unquoted p c ≡ true
    → resume (finish_unquoted (c ∷ s) (within p unquoted false))
      ≡ step_unquoted c (within p unquoted false) >>= feed s
unfolding finish_unquoted step_unquoted
finish_unquoted-step c s p h = elim (Bool-cases (c == p.delimiter)) [
  | inl e ↦ rw e refl
  | inr e ↦ elim (Bool-cases (c == lf)) [
    | inl f ↦ rw (e, terminate-feed c s p unquoted, f) refl
    | inr f ↦
        rw
          (
            e,
            terminate-feed c s p unquoted,
            f,
            or_last (c == p.delimiter) (c == lf) (c == cr) h e f,
          )
          refl
  ]
]

step_unquoted-run :
    (c : ℕ) (p : CsvParser)
    → ends_unquoted p c ≡ false
    → step_unquoted c p ≡ append (c ∷ []) (touch p)
unfolding step_unquoted
step_unquoted-run c p h =
    let (e, f, g) = or_none (c == p.delimiter) (c == lf) (c == cr) h in rw (e, f, g) refl

read_unquoted-touched :
    (s : Text) (p : CsvParser)
    → resume (read_unquoted s (touch p))
      ≡ append_run (span (ends_unquoted p) s).0 (touch p)
        >>= (λ q. resume (finish_unquoted (span (ends_unquoted p) s).1 q))
unfolding read_unquoted
read_unquoted-touched s p =
    let (run, rest) = span (ends_unquoted p) s in rw (touched_run run p, resume-read_on) refl

read_unquoted_none : (p : CsvParser) → read_unquoted [] p ≡ at [] p
unfolding read_unquoted span finish_unquoted
read_unquoted_none p = refl

pub read_unquoted-feed :
    (s : Text) (p : CsvParser)
    → resume (read_unquoted s (within p unquoted false)) ≡ feed s (within p unquoted false)
unfolding feed step step_line step_field
read_unquoted-feed [] p = rw (read_unquoted_none (within p unquoted false)) refl
read_unquoted-feed (c ∷ s) p = elim (Bool-cases (ends_unquoted p c)) [
  | inl e ↦ rw (read_unquoted-stop c s (within p unquoted false) e) (finish_unquoted-step c s p e)
  | inr e ↦
      let begun = touch (within p unquoted false) in
      let (run, rest) = span (ends_unquoted p) s in
      rw
        (
          read_unquoted-run c s (within p unquoted false) e,
          step_unquoted-run c (within p unquoted false) e,
          resume-read_on,
          append-cons c run begun,
          >>=-assoc (append (c ∷ []) begun) (append_run run),
        )
        (append->>= (c ∷ []) begun p.line p.line
          (λ q. append_run run q >>= (λ x. resume (finish_unquoted rest x))) (feed s)
          (sym (read_unquoted-touched s (appended (c ∷ []) begun))
            ∙ read_unquoted-feed s (appended (c ∷ []) (touch p))))
]
