-- ===== src/CsvParser/Advance.antt =====
-- src/streams/csv-parser.ts: how far a round of the loop of `consume` gets in the input.

use boilerplate_express_ts.Prelude.{
  ℕ, suc, ◌+◌, ◌≤◌, ◌≡◌, ◌⊎◌, inl, inr, refl, ap, sym, subst, Bool, true, false, ◌||◌, [], ◌∷◌,
  ◌++◌, ltb, arith, ◌==◌, length, Text, Bool-cases,
}
use boilerplate_express_ts.CsvParser.{
  CsvParser, State, Read, at, broke, read_on, field_start, unquoted, quoted, after_quote, append,
  close_field, close_record, touch, lf, cr, terminate, span, ends_unquoted, newlines,
  finish_unquoted, read_unquoted, finish_quoted, read_quoted, read_field_start, read_after_quote,
  read_state, round,
}
use boilerplate_express_ts.CsvParser.Runs.{within}
use boilerplate_express_ts.CsvParser.Rounds.{closed_within}

-- At most `n` characters are left, and the start of the input is behind.
abbrev pub IsNear : ℕ → Read → Type 0
IsNear n (at s p) = (length s ≤ n) × (p.at_start ≡ false)
IsNear n (broke e out) = Unit

closed_started : (p : CsvParser) → p.at_start ≡ false → (close_record p).at_start ≡ false
unfolding close_record
closed_started p h = elim (Bool-cases p.record_touched) [ inl e ↦ rw e h | inr e ↦ rw e h ]

terminate-IsNear :
    (c : ℕ) (s : Text) (n : ℕ) (p : CsvParser)
    → p.at_start ≡ false
    → length s ≤ n
    → IsNear n (terminate c s p)
unfolding terminate
terminate-IsNear c [] n p h l = elim (Bool-cases (c == lf)) [
  | inl e ↦ rw e (l, closed_started p h)
  | inr e ↦ rw e (l, h)
]
terminate-IsNear c (d ∷ s) n p h l = elim (Bool-cases (c == lf)) [
  | inl e ↦ rw e (l, closed_started p h)
  | inr e ↦ elim (Bool-cases (d == lf)) [
    | inl f ↦ rw (e, f) (omega (arith, l), closed_started p h)
    | inr f ↦ rw (e, f) (l, closed_started p h)
  ]
]

append-IsNear :
    (text : Text) (n : ℕ) (p : CsvParser) (f : CsvParser → Read)
    → p.at_start ≡ false
    → ((q : CsvParser) → q.at_start ≡ false → IsNear n (f q))
    → IsNear n (read_on (append text p) f)
unfolding append
append-IsNear text n p f h near =
    elim (Bool-cases (ltb p.max_record_chars (p.record_chars + length text))) [
      | inl e ↦ rw e tt
      | inr e ↦ rw e (
          near (record p { record_chars = p.record_chars + length text; field = p.field ++ text })
            h)
    ]

span-length : (stops : ℕ → Bool) (s : Text) → length (span stops s).1 ≤ length s
unfolding span
span-length stops [] = omega arith
span-length stops (c ∷ s) = elim (Bool-cases (stops c)) [
  | inl e ↦ rw e (omega arith)
  | inr e ↦ rw e (omega (arith, span-length stops s))
]

finish_unquoted-IsNear :
    (rest : Text) (n : ℕ) (p : CsvParser)
    → p.at_start ≡ false
    → length rest ≤ suc n
    → IsNear n (finish_unquoted rest p)
unfolding finish_unquoted close_field
finish_unquoted-IsNear [] n p h l = (omega arith, h)
finish_unquoted-IsNear (c ∷ s) n p h l = elim (Bool-cases (c == p.delimiter)) [
  | inl e ↦ rw e (omega (arith, l), h)
  | inr e ↦ rw e (terminate-IsNear c s n p h (omega (arith, l)))
]

pub read_unquoted-IsNear :
    (c : ℕ) (s : Text) (p : CsvParser)
    → p.at_start ≡ false
    → IsNear (length s) (read_unquoted (c ∷ s) p)
unfolding read_unquoted span
read_unquoted-IsNear c s p h = elim (Bool-cases (ends_unquoted p c)) [
  | inl e ↦ rw e (finish_unquoted-IsNear (c ∷ s) (length s) p h (omega arith))
  | inr e ↦
      let (run, rest) = span (ends_unquoted p) s in
      rw e (
        append-IsNear (c ∷ run) (length s) (touch p) (finish_unquoted rest) h λ q k.
          finish_unquoted-IsNear rest (length s) q k
            (omega (arith, span-length (ends_unquoted p) s)))
]

finish_quoted-IsNear :
    (rest : Text) (n : ℕ) (p : CsvParser)
    → p.at_start ≡ false
    → length rest ≤ suc n
    → IsNear n (finish_quoted rest p)
unfolding finish_quoted
finish_quoted-IsNear [] n p h l = (omega arith, h)
finish_quoted-IsNear (c ∷ s) n p h l = (omega (arith, l), h)

read_quoted-IsNear :
    (c : ℕ) (s : Text) (p : CsvParser)
    → p.at_start ≡ false
    → IsNear (length s) (read_quoted (c ∷ s) p)
unfolding read_quoted span
read_quoted-IsNear c s p h = elim (Bool-cases (c == p.quote)) [
  | inl e ↦
      rw e
        (finish_quoted-IsNear (c ∷ s) (length s) (record p { line = p.line + 0 }) h (omega arith))
  | inr e ↦
      let (run, rest) = span (λ d. d == p.quote) s in
      rw e (
        append-IsNear (c ∷ run) (length s) (record p { line = p.line + newlines (c ∷ run) })
          (finish_quoted rest) h
          λ q k.
            finish_quoted-IsNear rest (length s) q k
              (omega (arith, span-length (λ d. d == p.quote) s)))
]

read_after_quote-IsNear :
    (c : ℕ) (s : Text) (p : CsvParser)
    → p.at_start ≡ false
    → IsNear (length s) (read_after_quote c s p)
unfolding read_after_quote close_field
read_after_quote-IsNear c s p h = elim (Bool-cases (c == p.quote)) [
  | inl e ↦ rw e (
      append-IsNear (p.quote ∷ []) (length s) p (λ q. at s (record q { state = quoted })) h
        λ q k. (omega arith, k))
  | inr e ↦ elim (Bool-cases (c == p.delimiter)) [
    | inl f ↦ rw (e, f) (omega arith, h)
    | inr f ↦ elim (Bool-cases (c == lf || c == cr)) [
      | inl g ↦
          rw (e, f, g)
            (terminate-IsNear c s (length s) (record p { state = field_start }) h (omega arith))
      | inr g ↦ rw (e, f, g) tt
    ]
  ]
]

-- A round takes a character, or only turns from the start of a field to its unquoted text.
abbrev pub Advances : ℕ → Text → Read → Type 0
Advances c s r =
    IsNear (length s) r ⊎ ((p : CsvParser) × (r ≡ at (c ∷ s) (within p unquoted false)))

read_state-Advances :
    (c : ℕ) (s : Text) (p : CsvParser) (st : State)
    → Advances c s (read_state c s (within p st false))
unfolding read_state read_field_start
read_state-Advances c s p field_start = elim (Bool-cases (c == p.quote)) [
  | inl e ↦ rw e (inl (omega arith, refl))
  | inr e ↦ rw e (inr (p, refl))
]
read_state-Advances c s p unquoted = inl (read_unquoted-IsNear c s (within p unquoted false) refl)
read_state-Advances c s p quoted = inl (read_quoted-IsNear c s (within p quoted false) refl)
read_state-Advances c s p after_quote =
    inl (read_after_quote-IsNear c s (within p after_quote false) refl)

round_within-Advances :
    (c : ℕ) (s : Text) (p : CsvParser) (st : State) (b : Bool)
    → Advances c s (round c s (within p st b))
unfolding round
round_within-Advances c s p st false = read_state-Advances c s p st
round_within-Advances c s p st true = elim (Bool-cases (c == lf)) [
  | inl e ↦ rw e (inl (omega arith, closed_started (within p st false) refl))
  | inr e ↦ rw e (
      subst (λ q. Advances c s (read_state c s q)) (closed_within p st)
        (read_state-Advances c s (close_record (within p st false)) field_start))
]

pub round-Advances :
    (c : ℕ) (s : Text) (p : CsvParser) → p.at_start ≡ false → Advances c s (round c s p)
round-Advances c s p h =
    subst (λ q. Advances c s (round c s q)) (ap (λ b. record p { at_start = b }) (sym h))
      (round_within-Advances c s p p.state p.pending_cr)
