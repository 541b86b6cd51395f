-- ===== src/Prelude/Scan.antt =====
-- The scanning functions of JavaScript strings that the sources use: `indexOf` of a character with the
-- two slices around it, `split` on a character, and `trim`.
use Prim.Native.Nat.{ℕ}
use mathlib.Core.Path.{◌≡◌, refl, ap, ◌∙◌}
use mathlib.Core.Logic.{◌≢◌}
use mathlib.Core.Bool.{Bool, false, ◌&&◌, ◌||◌}
use mathlib.Core.Option.{Option, none, some}
use mathlib.Core.List.{List, [], ◌∷◌, ◌++◌, reverse, reverse-cons, reverse-reverse}
use native.Mathlib.Omega.{arith}
use boilerplate_express_ts.Prelude.Tests.{leb, ◌==◌, if◌then◌else◌}
use boilerplate_express_ts.Prelude.Lists.{All, All-append}
use boilerplate_express_ts.Prelude.Strings.{Text}

abbrev before_cons : ℕ → Option (Text × Text) → Option (Text × Text)
before_cons x none = none
before_cons x (some (a, b)) = some (x ∷ a, b)

-- `s.slice(0, s.indexOf(c))` and `s.slice(s.indexOf(c) + 1)`, or `none` where `c` does not occur.
unfoldable pub cut : ℕ → Text → Option (Text × Text)
cut c [] = none
cut c (x ∷ s) = let rest = cut c s in if x == c then some ([], s) else before_cons x rest

abbrev head_cons : ℕ → List Text → List Text
head_cons x [] = (x ∷ []) ∷ []
head_cons x (p ∷ ps) = (x ∷ p) ∷ ps

-- `s.split(c)`.
unfoldable pub split : ℕ → Text → List Text
split c [] = [] ∷ []
split c (x ∷ s) = let rest = split c s in if x == c then [] ∷ rest else head_cons x rest

-- The code units that `trim` removes.
abbrev pub is_space : ℕ → Bool
is_space c =
    (leb 9 c && leb c 13)
    || c == 32
    || c == 160
    || c == 5760
    || (leb 8192 c && leb c 8202)
    || c == 8232
    || c == 8233
    || c == 8239
    || c == 8287
    || c == 12288
    || c == 65279

unfoldable pub trim_start : Text → Text
trim_start [] = []
trim_start (c ∷ s) = let rest = trim_start s in if is_space c then rest else c ∷ s

unfoldable pub trim : Text → Text
unfolding trim_start
trim s = reverse (trim_start (reverse (trim_start s)))

-- Texts without the character `c`.
abbrev pub Lacks : ℕ → Text → Type 0
Lacks c = All λ x. x ≢ c

pub cut-append : (c : ℕ) (a b : Text) → Lacks c a → cut c (a ++ (c ∷ b)) ≡ some (a, b)
unfolding cut
cut-append c [] b h = ground arith
cut-append c (x ∷ a) b h = ground (arith, cut-append c a b h.1)

pub split-append : (c : ℕ) (a b : Text) → Lacks c a → split c (a ++ (c ∷ b)) ≡ a ∷ split c b
unfolding split
split-append c [] b h = ground arith
split-append c (x ∷ a) b h = ground (arith, split-append c a b h.1)

pub split-Lacks : (c : ℕ) (a : Text) → Lacks c a → split c a ≡ a ∷ []
unfolding split
split-Lacks c [] h = refl
split-Lacks c (x ∷ a) h = ground (arith, split-Lacks c a h.1)

abbrev pub IsInk : Text → Type 0
IsInk = All λ c. is_space c ≡ false

trim_start-IsInk : (s : Text) → IsInk s → trim_start s ≡ s
unfolding trim_start
trim_start-IsInk [] h = refl
trim_start-IsInk (c ∷ s) h = rw (h.0) refl

reverse-IsInk : (s : Text) → IsInk s → IsInk (reverse s)
reverse-IsInk [] h = tt
reverse-IsInk (c ∷ s) h =
    rw (reverse-cons c s)
      (All-append (λ x. is_space x ≡ false) (reverse s) (c ∷ []) (reverse-IsInk s h.1) (h.0, tt))

pub trim-IsInk : (s : Text) → IsInk s → trim s ≡ s
unfolding trim
trim-IsInk s h =
    ap reverse (
      ap (λ (t : Text). trim_start (reverse t)) (trim_start-IsInk s h)
      ∙ trim_start-IsInk (reverse s) (reverse-IsInk s h))
    ∙ reverse-reverse s
