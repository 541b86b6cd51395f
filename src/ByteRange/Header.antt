-- ===== src/ByteRange/Header.antt =====
-- Reading a `Range` header back (`parseRangeHeader` in src/http/range.ts).
use mathlib.Core.List.{append-nil}
use boilerplate_express_ts.Prelude.{
  ℕ, ◌^◌, ◌≤◌, ◌<◌, ◌≡◌, ◌≢◌, ◌⊎◌, refl, ap, sym, subst, ◌∙◌, inl, inr, true, false, Option, none,
  some, List, [], ◌∷◌, ◌++◌, length, arith, All, All-mono, All-append, Text, text_eq, codes, print,
  read, read-print, print-IsDigit, print-HasHead, length-print, IsDigit, HasHead, ltb, Bool-cases,
  if◌then◌else◌,
}
use boilerplate_express_ts.Prelude.Scan.{
  cut, split, trim, Lacks, cut-append, split-append, split-Lacks, IsInk, trim-IsInk, is_space,
}
use boilerplate_express_ts.ByteRange.{
  RangeSpec, int, suffix, all_digits, is_number, strip_zeros, parse_position, spec_of, int_of,
  suffix_of, is_empty, parse_range_spec, parse_parts, specs_cons, or_null, to_lower, resolve_range,
  parse_range_header,
}
use boilerplate_express_ts.ByteRange.Resolve.{IsProper, Resolves, resolve_range-Resolves}

-- The text of a spec, as RFC 9110 writes it.
pub print_spec : RangeSpec → Text
print_spec (int first none) = print first ++ (b'-' ∷ [])
print_spec (int first (some last)) = print first ++ (b'-' ∷ print last)
print_spec (suffix n) = b'-' ∷ print n

pub print_specs : RangeSpec → List RangeSpec → Text
print_specs spec [] = print_spec spec
print_specs spec (next ∷ specs) = print_spec spec ++ (b',' ∷ print_specs next specs)

-- Positions that are read exactly, and a last position that is not below the first.
abbrev pub IsExact : RangeSpec → Type 0
IsExact (int first none) = first < 10 ^ 15
IsExact (int first (some last)) = (first ≤ last) × (last < 10 ^ 15)
IsExact (suffix n) = n < 10 ^ 15

all_digits_of : (s : Text) → All IsDigit s → all_digits s ≡ true
all_digits_of [] h = refl
all_digits_of (c ∷ s) h = ground (arith, all_digits_of s h.1)

is_number_of : (s : Text) → All IsDigit s → HasHead s → is_number s ≡ true
is_number_of [] h k = elim k [ ]
is_number_of (c ∷ s) h k = ground (arith, all_digits_of s h.1)

read-strip_zeros : (s : Text) → read (strip_zeros s) ≡ read s
unfolding strip_zeros read
read-strip_zeros [] = refl
read-strip_zeros (c ∷ []) = refl
read-strip_zeros (c ∷ d ∷ s) = ground (arith, read-strip_zeros (d ∷ s))

length-strip_zeros : (s : Text) → length (strip_zeros s) ≤ length s
unfolding strip_zeros
length-strip_zeros [] = omega arith
length-strip_zeros (c ∷ []) = omega arith
length-strip_zeros (c ∷ d ∷ s) = ground (arith, length-strip_zeros (d ∷ s))

parse_position-print : (n : ℕ) → n < 10 ^ 15 → parse_position (print n) ≡ some n
unfolding parse_position
parse_position-print n h =
    let short : length (strip_zeros (print n)) ≤ 15 =
      omega (arith, length-strip_zeros (print n), length-print n 14 h) in
    ground (
      arith,
      is_number_of (print n) (print-IsDigit n) (print-HasHead n),
      read-strip_zeros (print n),
      read-print n,
    )

is_empty-append : (s t : Text) → HasHead s → is_empty (s ++ t) ≡ false
is_empty-append [] t h = elim h [ ]
is_empty-append (c ∷ s) t h = refl

is_empty-print : (n : ℕ) → is_empty (print n) ≡ false
is_empty-print n =
    ap is_empty (sym (append-nil (print n))) ∙ is_empty-append (print n) [] (print-HasHead n)

print-Lacks : (c n : ℕ) → c < 48 → Lacks c (print n)
print-Lacks c n h = All-mono IsDigit (λ x. x ≢ c) (print n) (λ x d e. omega arith) (print-IsDigit n)

parse_range_spec-print_spec :
    (spec : RangeSpec) → IsExact spec → parse_range_spec (print_spec spec) ≡ some spec
unfolding parse_range_spec print_spec
parse_range_spec-print_spec (int first none) h =
    rw (cut-append b'-' (print first) [] (print-Lacks b'-' first (omega arith)), parse_range_spec)
      (ground (arith, is_empty-print first, parse_position-print first h))
parse_range_spec-print_spec (int first (some last)) h =
    rw
      (
        cut-append b'-' (print first) (print last) (print-Lacks b'-' first (omega arith)),
        parse_range_spec,
      )
      (ground (
        arith,
        is_empty-print first,
        is_empty-print last,
        parse_position-print first (omega arith),
        parse_position-print last h.1,
      ))
parse_range_spec-print_spec (suffix n) h =
    rw (cut-append b'-' [] (print n) tt, parse_range_spec)
      (ground (arith, parse_position-print n h))

-- The characters of a printed spec.
abbrev IsSpecChar : ℕ → Type 0
IsSpecChar c = (c ≡ b'-') ⊎ IsDigit c

print-IsSpecChar : (n : ℕ) → All IsSpecChar (print n)
print-IsSpecChar n = All-mono IsDigit IsSpecChar (print n) (λ x d. inr d) (print-IsDigit n)

print_spec-IsSpecChar : (spec : RangeSpec) → All IsSpecChar (print_spec spec)
unfolding print_spec
print_spec-IsSpecChar (int first none) =
    All-append IsSpecChar (print first) (b'-' ∷ []) (print-IsSpecChar first) (inl refl, tt)
print_spec-IsSpecChar (int first (some last)) =
    All-append IsSpecChar (print first) (b'-' ∷ print last) (print-IsSpecChar first)
      (inl refl, print-IsSpecChar last)
print_spec-IsSpecChar (suffix n) = (inl refl, print-IsSpecChar n)

spec_char_ink : (c : ℕ) → IsSpecChar c → is_space c ≡ false
spec_char_ink c h = ground arith

print_spec-IsInk : (spec : RangeSpec) → IsInk (print_spec spec)
print_spec-IsInk spec =
    All-mono IsSpecChar (λ c. is_space c ≡ false) (print_spec spec) spec_char_ink
      (print_spec-IsSpecChar spec)

print_spec-Lacks : (spec : RangeSpec) → Lacks b',' (print_spec spec)
print_spec-Lacks spec =
    All-mono IsSpecChar (λ c. c ≢ b',') (print_spec spec) (λ c h e. ground arith)
      (print_spec-IsSpecChar spec)

is_empty-print_spec : (spec : RangeSpec) → is_empty (print_spec spec) ≡ false
unfolding print_spec
is_empty-print_spec (int first none) = is_empty-append (print first) _ (print-HasHead first)
is_empty-print_spec (int first (some last)) = is_empty-append (print first) _ (print-HasHead first)
is_empty-print_spec (suffix n) = refl

parse_parts-cons :
    (spec : RangeSpec) (parts : List Text)
    → IsExact spec
    → parse_parts (print_spec spec ∷ parts) ≡ specs_cons (some spec) (parse_parts parts)
unfolding parse_parts
parse_parts-cons spec parts h =
    rw
      (
        trim-IsInk (print_spec spec) (print_spec-IsInk spec),
        is_empty-print_spec spec,
        parse_range_spec-print_spec spec h,
      )
      refl

parse_parts-nil : parse_parts [] ≡ some []
unfolding parse_parts
parse_parts-nil = refl

parse_parts-print_specs :
    (spec : RangeSpec) (specs : List RangeSpec)
    → All IsExact (spec ∷ specs)
    → parse_parts (split b',' (print_specs spec specs)) ≡ some (spec ∷ specs)
unfolding print_specs
parse_parts-print_specs spec [] h =
    ap parse_parts (split-Lacks b',' (print_spec spec) (print_spec-Lacks spec))
    ∙ parse_parts-cons spec [] h.0
    ∙ ap (specs_cons (some spec)) parse_parts-nil
parse_parts-print_specs spec (next ∷ specs) h =
    ap parse_parts
      (split-append b',' (print_spec spec) (print_specs next specs) (print_spec-Lacks spec))
    ∙ parse_parts-cons spec (split b',' (print_specs next specs)) h.0
    ∙ ap (specs_cons (some spec)) (parse_parts-print_specs next specs h.1)

-- The header that lists specs with exact positions, in any number, is read back as those specs.
pub parse_range_header-print_specs :
    (spec : RangeSpec) (specs : List RangeSpec)
    → All IsExact (spec ∷ specs)
    → parse_range_header (codes "bytes=" ++ print_specs spec specs) ≡ some (spec ∷ specs)
unfolding parse_range_header trim text_eq
parse_range_header-print_specs spec specs h =
    rw (cut-append b'=' (codes "bytes") (print_specs spec specs) (omega arith), parse_range_header)
      (ap or_null (parse_parts-print_specs spec specs h))

abbrev Yields : Option RangeSpec → Type 0
Yields none = Unit
Yields (some spec) = IsProper spec

abbrev AllYield : Option (List RangeSpec) → Type 0
AllYield none = Unit
AllYield (some specs) = All IsProper specs

int_of-Yields : (first : ℕ) (last : Option ℕ) → Yields (int_of first last)
int_of-Yields first none = tt
int_of-Yields first (some last) = elim (Bool-cases (ltb last first)) [
  | inl below ↦ rw below tt
  | inr proper ↦ rw proper (ground arith)
]

spec_of-Yields : (before after : Text) → Yields (spec_of before after)
unfolding spec_of
spec_of-Yields [] after = go (parse_position after)
  where
    go : (o : Option ℕ) → Yields (suffix_of o)
    go none = tt
    go (some n) = tt
spec_of-Yields (c ∷ before) [] = go (parse_position (c ∷ before))
  where
    go : (o : Option ℕ) → Yields (elim o [ none ↦ none | some first ↦ some (int first none) ])
    go none = tt
    go (some n) = tt
spec_of-Yields (c ∷ before) (d ∷ after) = go (parse_position (c ∷ before))
  where
    go :
        (o : Option ℕ)
        → Yields (elim o [ none ↦ none | some first ↦ int_of first (parse_position (d ∷ after)) ])
    go none = tt
    go (some n) = int_of-Yields n (parse_position (d ∷ after))

parse_range_spec-Yields : (part : Text) → Yields (parse_range_spec part)
unfolding parse_range_spec
parse_range_spec-Yields part = go (cut b'-' part)
  where
    go : (o : Option (Text × Text)) → Yields (elim o [ none ↦ none | some (a, b) ↦ spec_of a b ])
    go none = tt
    go (some (a, b)) = spec_of-Yields a b

specs_cons-AllYield :
    (o : Option RangeSpec) (rest : Option (List RangeSpec))
    → Yields o
    → AllYield rest
    → AllYield (specs_cons o rest)
specs_cons-AllYield none rest h k = tt
specs_cons-AllYield (some spec) none h k = tt
specs_cons-AllYield (some spec) (some specs) h k = (h, k)

parse_parts-AllYield : (parts : List Text) → AllYield (parse_parts parts)
unfolding parse_parts
parse_parts-AllYield [] = tt
parse_parts-AllYield (raw ∷ parts) = elim (Bool-cases (is_empty (trim raw))) [
  | inl blank ↦ rw blank (parse_parts-AllYield parts)
  | inr full ↦ rw full (
      specs_cons-AllYield (parse_range_spec (trim raw)) (parse_parts parts)
        (parse_range_spec-Yields (trim raw)) (parse_parts-AllYield parts))
]

or_null-AllYield : (o : Option (List RangeSpec)) → AllYield o → AllYield (or_null o)
or_null-AllYield none h = tt
or_null-AllYield (some []) h = tt
or_null-AllYield (some (s ∷ ss)) h = h

parse_range_header-AllYield : (header : Text) → AllYield (parse_range_header header)
unfolding parse_range_header
parse_range_header-AllYield header = go (cut b'=' header)
  where
    go :
        (o : Option (Text × Text))
        → AllYield (elim o [
          | none ↦ none
          | some (unit, set) ↦
              if text_eq (to_lower (trim unit)) (codes "bytes")
              then or_null (parse_parts (split b',' set))
              else none
        ])
    go none = tt
    go (some (unit, set)) = elim (Bool-cases (text_eq (to_lower (trim unit)) (codes "bytes"))) [
      | inl bytes ↦
          rw bytes (
            or_null-AllYield (parse_parts (split b',' set)) (parse_parts-AllYield (split b',' set)))
      | inr other ↦ rw other tt
    ]

-- Whatever the header: if it is read as a single spec, the range that is served from a representation
-- of `size` bytes is an interval within it that holds exactly the bytes the spec asks for, and the
-- request is unsatisfiable only if it asks for none.
pub parse_range_header-Resolves :
    (header : Text) (spec : RangeSpec) (size : ℕ)
    → parse_range_header header ≡ some (spec ∷ [])
    → Resolves spec size (resolve_range (spec ∷ []) size)
parse_range_header-Resolves header spec size e =
    resolve_range-Resolves spec size (subst AllYield e (parse_range_header-AllYield header)).0
