-- ===== src/ByteRange.antt =====
-- src/http/range.ts: the `Range` header of a byte-range request and what it selects.
pub mod Resolve
pub mod Header
mod Tests
use boilerplate_express_ts.Prelude.{
  ℕ, zero, suc, ◌+◌, ◌-◌, ◌≤◌, ◌<◌, min, max, Bool, true, false, not, ◌&&◌, ◌||◌, Option, none,
  some, List, [], ◌∷◌, ◌++◌, ltb, leb, ◌==◌, if◌then◌else◌, length, Text, codes, text_eq, print,
  read, is_digit,
}
use boilerplate_express_ts.Prelude.Scan.{cut, split, trim}

pub record ByteRange : Type 0 where
  pub start : ℕ
  pub end : ℕ

pub data RangeSpec : Type 0 where
  int : ℕ → Option ℕ → RangeSpec
  suffix : ℕ → RangeSpec

pub data RangeResolution : Type 0 where
  ignore unsatisfiable : RangeResolution
  range : ByteRange → RangeResolution

abbrev pub max_position_digits : ℕ
max_position_digits = 15

abbrev pub max_safe_integer : ℕ
max_safe_integer = 9007199254740991

abbrev all_digits : Text → Bool
all_digits [] = true
all_digits (c ∷ s) = is_digit c && all_digits s

abbrev is_number : Text → Bool
is_number [] = false
is_number (c ∷ s) = is_digit c && all_digits s

-- `text.replace(/^0+(?=[0-9])/, '')`: leading zeros go while a digit follows.
unfoldable pub strip_zeros : Text → Text
strip_zeros [] = []
strip_zeros (c ∷ []) = c ∷ []
strip_zeros (c ∷ d ∷ s) =
    let rest = strip_zeros (d ∷ s) in if c == 48 && is_digit d then rest else c ∷ d ∷ s

unfoldable pub parse_position : Text → Option ℕ
unfolding strip_zeros
parse_position text =
    let digits = strip_zeros text in
    if is_number text
    then (if ltb max_position_digits (length digits)
        then some max_safe_integer
        else some (read digits))
    else none

abbrev is_empty : Text → Bool
is_empty [] = true
is_empty (c ∷ s) = false

-- The end of `parseRangeSpec`: a last position, present and not below the first.
abbrev int_of : ℕ → Option ℕ → Option RangeSpec
int_of first none = none
int_of first (some last) = if ltb last first then none else some (int first (some last))

abbrev suffix_of : Option ℕ → Option RangeSpec
suffix_of none = none
suffix_of (some length) = some (suffix length)

spec_of : Text → Text → Option RangeSpec
spec_of before after =
    if is_empty before then suffix_of (parse_position after) else elim (parse_position before) [
      | none ↦ none
      | some first ↦
          if is_empty after then some (int first none) else int_of first (parse_position after)
    ]

unfoldable pub parse_range_spec : Text → Option RangeSpec
unfolding spec_of parse_position
parse_range_spec part = elim (cut b'-' part) [
  | none ↦ none
  | some (before, after) ↦ spec_of before after
]

abbrev specs_cons : Option RangeSpec → Option (List RangeSpec) → Option (List RangeSpec)
specs_cons none rest = none
specs_cons (some spec) none = none
specs_cons (some spec) (some specs) = some (spec ∷ specs)

-- The loop over the parts: an empty part is skipped, and a part that is no spec refuses the header.
unfoldable pub parse_parts : List Text → Option (List RangeSpec)
unfolding parse_range_spec
parse_parts [] = some []
parse_parts (raw ∷ parts) =
    let part = trim raw in
    let rest = parse_parts parts in
    if is_empty part then rest else specs_cons (parse_range_spec part) rest

-- `toLowerCase`, on ASCII letters; no other code unit becomes a letter of `bytes`.
abbrev to_lower : Text → Text
to_lower [] = []
to_lower (c ∷ s) = (if leb b'A' c && leb c b'Z' then c + 32 else c) ∷ to_lower s

abbrev or_null : Option (List RangeSpec) → Option (List RangeSpec)
or_null (some []) = none
or_null specs = specs

unfoldable pub parse_range_header : Text → Option (List RangeSpec)
unfolding parse_parts
parse_range_header header = elim (cut b'=' header) [
  | none ↦ none
  | some (unit, set) ↦
      if text_eq (to_lower (trim unit)) (codes "bytes")
      then or_null (parse_parts (split b',' set))
      else none
]

-- The bounds check on `size` is the type's.
unfoldable pub resolve_range : List RangeSpec → ℕ → RangeResolution
resolve_range (suffix length ∷ []) size =
    if length == 0 || size == 0
    then unsatisfiable
    else range (record { start = size - length; end = size - 1 })
resolve_range (int first last ∷ []) size =
    if leb size first
    then unsatisfiable
    else range
        (record { start = first; end = elim last [ none ↦ size - 1 | some l ↦ min l (size - 1) ] })
resolve_range _ size = ignore

unfoldable pub range_length : ByteRange → ℕ
range_length r = r.end - r.start + 1

unfoldable pub format_content_range : ByteRange → ℕ → Text
format_content_range r size =
    codes "bytes " ++ (print r.start ++ (b'-' ∷ (print r.end ++ (b'/' ∷ print size))))

unfoldable pub format_unsatisfied_range : ℕ → Text
format_unsatisfied_range size = codes "bytes */" ++ print size
