-- ===== src/Prelude/Strings.antt =====
-- A JavaScript string is the list of its UTF-16 code units. `codes` makes one from an ASCII literal.
use Prim.Native.Nat.{ℕ, zero, suc, ◌+◌, ◌-◌, ◌*◌, ◌/◌, ◌%◌, ◌^◌, ◌≤◌, ◌<◌}
use Prim.Native.Char.{code}
use Prim.Native.String.{String}
use mathlib.Core.Path.{◌≡◌, refl, ap}
use mathlib.Core.Logic.{◌↔◌}
use mathlib.Core.Bool.{Bool, true, false, ◌&&◌}
use mathlib.Core.List.{List, [], ◌∷◌}
use native.Mathlib.Omega.{arith}
use native.Mathlib.Nat.{pow-suc}
use boilerplate_express_ts.Prelude.Tests.{ltb, leb, ◌==◌, if◌then◌else◌}
use boilerplate_express_ts.Prelude.Lists.{All, length}

abbrev pub Text : Type 0
Text = List ℕ

abbrev pub codes : String → Text
codes String.[] = []
codes (String.◌∷◌ c s) = code c ∷ codes s

-- `a === b` on strings.
unfoldable pub text_eq : Text → Text → Bool
text_eq [] [] = true
text_eq (x ∷ xs) (y ∷ ys) = (x == y) && text_eq xs ys
text_eq _ _ = false

pub text_eq_refl : (a : Text) → text_eq a a ≡ true
unfolding text_eq
text_eq_refl [] = refl
text_eq_refl (x ∷ xs) = ground (arith, text_eq_refl xs)

pub eq_of_text_eq : (a b : Text) → text_eq a b ≡ true → a ≡ b
unfolding text_eq
eq_of_text_eq [] [] h = refl
eq_of_text_eq [] (y ∷ ys) h = cc
eq_of_text_eq (x ∷ xs) [] h = cc
eq_of_text_eq (x ∷ xs) (y ∷ ys) h = ground (arith, eq_of_text_eq xs ys)

pub text_eq_iff : (a b : Text) → (text_eq a b ≡ true) ↔ (a ≡ b)
text_eq_iff a b = (eq_of_text_eq a b, λ e. cc (text_eq_refl a, ap (text_eq a) e))

-- The decimal text of a number, `String(n)`.
print_from : ℕ → ℕ → Text → Text
print_from zero n acc = acc
print_from (suc f) n acc =
    let rest = print_from f (n / 10) ((48 + n % 10) ∷ acc) in
    if ltb n 10 then (48 + n) ∷ acc else rest

unfoldable pub print : ℕ → Text
unfolding print_from
print n = print_from (suc n) n []

-- The number that a text of decimal digits stands for, `Number(digits)` before any rounding.
unfoldable pub read_from : ℕ → Text → ℕ
read_from a [] = a
read_from a (c ∷ s) = read_from (10 * a + (c - 48)) s

unfoldable pub read : Text → ℕ
unfolding read_from
read = read_from 0

abbrev pub is_digit : ℕ → Bool
is_digit c = leb 48 c && leb c 57

abbrev pub IsDigit : ℕ → Type 0
IsDigit c = (48 ≤ c) × (c ≤ 57)

read_from-print_from :
    (f n : ℕ) (acc : Text) → n < f → read_from 0 (print_from f n acc) ≡ read_from n acc
unfolding read_from print_from
read_from-print_from zero n acc h = elim h [ ]
read_from-print_from (suc f) n acc h =
    ground (arith, read_from-print_from f (n / 10) ((48 + n % 10) ∷ acc))

pub read-print : (n : ℕ) → read (print n) ≡ n
unfolding read print
read-print n = read_from-print_from (suc n) n [] (omega arith)

print_from-IsDigit : (f n : ℕ) (acc : Text) → All IsDigit acc → All IsDigit (print_from f n acc)
unfolding print_from
print_from-IsDigit zero n acc h = h
print_from-IsDigit (suc f) n acc h =
    ground (arith, print_from-IsDigit f (n / 10) ((48 + n % 10) ∷ acc) ((omega arith), h))

pub print-IsDigit : (n : ℕ) → All IsDigit (print n)
unfolding print
print-IsDigit n = print_from-IsDigit (suc n) n [] tt

abbrev pub HasHead : Text → Type 0
HasHead [] = ⊥
HasHead (c ∷ s) = Unit

print_from-HasHead : (f n : ℕ) (acc : Text) → HasHead acc → HasHead (print_from f n acc)
unfolding print_from
print_from-HasHead zero n acc h = h
print_from-HasHead (suc f) n acc h =
    ground (arith, print_from-HasHead f (n / 10) ((48 + n % 10) ∷ acc) tt)

pub print-HasHead : (n : ℕ) → HasHead (print n)
unfolding print
print-HasHead n = ground (arith, print_from-HasHead n (n / 10) ((48 + n % 10) ∷ []) tt)

length-print_from :
    (f n k : ℕ) (acc : Text)
    → n < f
    → n < 10 ^ suc k
    → length (print_from f n acc) ≤ suc k + length acc
unfolding print_from
length-print_from zero n k acc h b = elim h [ ]
length-print_from (suc f) n zero acc h b = ground arith
length-print_from (suc f) n (suc k) acc h b =
    ground (arith, pow-suc 10 (suc k), length-print_from f (n / 10) k ((48 + n % 10) ∷ acc))

-- A number below `10 ^ k` has at most `k` digits.
pub length-print : (n k : ℕ) → n < 10 ^ suc k → length (print n) ≤ suc k
unfolding print
length-print n k b = omega (arith, length-print_from (suc n) n k [] (omega arith) b)
