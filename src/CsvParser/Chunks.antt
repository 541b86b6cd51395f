-- ===== src/CsvParser/Chunks.antt =====
-- src/streams/csv-parser.ts: its loop against the automaton of Reference.antt, with the fuel that it
-- needs, and the chunks of the input.

use boilerplate_express_ts.Prelude.{
  ℕ, zero, suc, ◌*◌, ◌≤◌, ◌≡◌, inl, inr, refl, ap, sym, ◌∙◌, false, Option, none, some, List, [],
  ◌∷◌, ◌++◌, arith, ◌==◌, length, Text, Bool-cases,
}
use boilerplate_express_ts.CsvParser.{
  CsvParser, Outcome, ok, failed, ◌>>=◌, Read, at, broke, unquoted, byte_order_mark, follow,
  read_unquoted, read_state, round, loop, consume,
}
use boilerplate_express_ts.CsvParser.Runs.{resume, within, read_unquoted-feed}
use boilerplate_express_ts.CsvParser.Rounds.{round-feed}
use boilerplate_express_ts.CsvParser.Advance.{IsNear, read_unquoted-IsNear, round-Advances}
use boilerplate_express_ts.CsvParser.Reference.{step, feed, feed-append}

follow-feed :
    (next : Text → CsvParser → Option Outcome) (n : ℕ) (r : Read)
    → IsNear n r
    → ((s : Text) (p : CsvParser) → p.at_start ≡ false → length s ≤ n → next s p ≡ some (feed s p))
    → follow next r ≡ some (resume r)
follow-feed next n (at s p) near h = h s p near.1 near.0
follow-feed next n (broke e out) near h = refl

-- Enough fuel for the characters that are left, two rounds for each.
loop-feed :
    (fuel : ℕ) (s : Text) (p : CsvParser)
    → p.at_start ≡ false
    → 2 * length s ≤ fuel
    → loop fuel s p ≡ some (feed s p)
unfolding loop feed round read_state
loop-feed fuel [] p h l = refl
loop-feed zero (c ∷ s) p h l = absurd (omega (arith, l))
loop-feed (suc zero) (c ∷ s) p h l = absurd (omega (arith, l))
loop-feed (suc (suc fuel)) (c ∷ s) p h l = elim (round-Advances c s p h) [
  | inl near ↦
      follow-feed (loop (suc fuel)) (length s) (round c s p) near
        (λ t q k m. loop-feed (suc fuel) t q k (omega (arith, l, m)))
      ∙ ap some (round-feed c s p h)
  | inr (q, e) ↦ rw e (
      follow-feed (loop fuel) (length s) (read_unquoted (c ∷ s) (within q unquoted false))
        (read_unquoted-IsNear c s (within q unquoted false) refl)
        (λ t k a m. loop-feed fuel t k a (omega (arith, l, m)))
      ∙ ap some (read_unquoted-feed (c ∷ s) q ∙ ap resume (sym e) ∙ round-feed c s p h))
]

-- Reading a chunk, with its runs and its look ahead, is reading its characters one at a time, and the
-- fuel is enough for it.
pub consume-feed : (text : Text) (p : CsvParser) → consume text p ≡ some (feed text p)
unfolding consume feed step
consume-feed [] p = refl
consume-feed (c ∷ s) p = elim (Bool-cases p.at_start) [
  | inl h ↦ elim (Bool-cases (c == byte_order_mark)) [
    | inl e ↦
        rw (h, e) (loop-feed (2 * length s) s (record p { at_start = false }) refl (omega arith))
    | inr e ↦
        rw (h, e)
          (loop-feed (2 * length (c ∷ s)) (c ∷ s) (record p { at_start = false }) refl
            (omega arith))
  ]
  | inr h ↦
      rw h
        (loop-feed (2 * length (c ∷ s)) (c ∷ s) (record p { at_start = false }) refl (omega arith))
]

abbrev pub and_then : Option Outcome → (CsvParser → Option Outcome) → Option Outcome
and_then none f = none
and_then (some (ok p)) f = f p
and_then (some (failed e out)) f = some (failed e out)

and_then-some :
    (o : Outcome) (f : CsvParser → Option Outcome) (g : CsvParser → Outcome)
    → ((p : CsvParser) → f p ≡ some (g p))
    → and_then (some o) f ≡ some (o >>= g)
and_then-some (ok p) f g h = h p
and_then-some (failed e out) f g h = refl

-- The chunks of a stream in turn; an error ends the stream.
unfoldable pub consume_all : List Text → CsvParser → Option Outcome
consume_all [] p = some (ok p)
consume_all (text ∷ texts) p = and_then (consume text p) (consume_all texts)

abbrev pub join : List Text → Text
join [] = []
join (text ∷ texts) = text ++ join texts

pub consume_all-feed :
    (texts : List Text) (p : CsvParser) → consume_all texts p ≡ some (feed (join texts) p)
unfolding consume_all feed
consume_all-feed [] p = refl
consume_all-feed (text ∷ texts) p =
    rw (consume-feed text p, feed-append text (join texts) p)
      (and_then-some (feed text p) (consume_all texts) (feed (join texts)) (consume_all-feed texts))

-- However the text is cut into chunks, the chunks in turn have the outcome of the whole text: the
-- same parser, or the same error after the same records.
pub consume_all-join :
    (texts : List Text) (p : CsvParser) → consume_all texts p ≡ consume (join texts) p
consume_all-join texts p = consume_all-feed texts p ∙ sym (consume-feed (join texts) p)
