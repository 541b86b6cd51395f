-- ===== src/ByteRange/Resolve.antt =====
-- What a resolved range selects (`resolveRange` in src/http/range.ts).
use boilerplate_express_ts.Prelude.{
  ℕ, ◌+◌, ◌≤◌, ◌<◌, ◌≡◌, ◌↔◌, none, some, [], ◌∷◌, arith, Bool-cases, inl, inr, ◌⊎◌, leb, ◌==◌,
  true, false, tests, ◌||◌,
}
use boilerplate_express_ts.ByteRange.{
  RangeSpec, int, suffix, RangeResolution, ignore, unsatisfiable, range, resolve_range,
  range_length,
}

-- The bytes that a spec asks for, of a representation of `size` bytes.
abbrev pub Selects : RangeSpec → ℕ → ℕ → Type 0
Selects (int first none) size i = first ≤ i
Selects (int first (some last)) size i = (first ≤ i) × (i ≤ last)
Selects (suffix n) size i = size ≤ i + n

-- A spec as the parser makes it: its last position is not below its first.
abbrev pub IsProper : RangeSpec → Type 0
IsProper (int first none) = Unit
IsProper (int first (some last)) = first ≤ last
IsProper (suffix n) = Unit

abbrev pub Resolves : RangeSpec → ℕ → RangeResolution → Type 0
Resolves spec size ignore = ⊥
Resolves spec size unsatisfiable = (i : ℕ) → i < size → ¬ Selects spec size i
Resolves spec size (range r) =
    (r.start ≤ r.end)
    × (r.end < size)
    × (range_length r ≤ size)
    × ((i : ℕ) → ((r.start ≤ i) × (i ≤ r.end)) ↔ ((i < size) × Selects spec size i))

not_leb : (a b : ℕ) → leb a b ≡ false → b < a
not_leb a b h = ground arith

one_is_zero : (a b : ℕ) → (a == 0 || b == 0) ≡ true → (a ≡ 0) ⊎ (b ≡ 0)
one_is_zero a b h = ground arith

none_is_zero : (a b : ℕ) → (a == 0 || b == 0) ≡ false → (0 < a) × (0 < b)
none_is_zero a b h = ground arith

-- A single proper spec is never ignored. If it is satisfiable, the range is a non-empty interval
-- within the representation that holds the bytes the spec asks for and no other; and it is
-- unsatisfiable only if it asks for no byte.
pub resolve_range-Resolves :
    (spec : RangeSpec) (size : ℕ)
    → IsProper spec
    → Resolves spec size (resolve_range (spec ∷ []) size)
unfolding resolve_range range_length
resolve_range-Resolves (int first none) size h = elim (Bool-cases (leb size first)) [
  | inl past ↦ rw past (λ i inside asked. omega tests)
  | inr here ↦
      let below = not_leb size first here in
      rw here (omega arith, omega arith, omega arith, λ i. (λ p. omega arith, λ p. omega arith))
]
resolve_range-Resolves (int first (some last)) size h = elim (Bool-cases (leb size first)) [
  | inl past ↦ rw past (λ i inside asked. omega tests)
  | inr here ↦
      let below = not_leb size first here in
      rw here (omega arith, omega arith, omega arith, λ i. (λ p. omega arith, λ p. omega arith))
]
resolve_range-Resolves (suffix n) size h = elim (Bool-cases (n == 0 || size == 0)) [
  | inl none_left ↦
      let zero_one = one_is_zero n size none_left in rw none_left (λ i inside asked. omega arith)
  | inr some_left ↦
      let both = none_is_zero n size some_left in
      rw some_left
        (omega arith, omega arith, omega arith, λ i. (λ p. omega arith, λ p. omega arith))
]
