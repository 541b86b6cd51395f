-- ===== src/Idempotency/Key.antt =====
-- The map key of a scope and a key (`recordKey` in src/idempotency/memory.store.ts).
use boilerplate_express_ts.Prelude.{
  ℕ, ◌≡◌, ◌≢◌, refl, ap, sym, ◌∙◌, Option, none, some, [], ◌∷◌, ◌++◌, length, take, drop, All-mono,
  Text, print, read, read-print, print-IsDigit, IsDigit, arith,
}
use boilerplate_express_ts.Prelude.Scan.{cut, cut-append, Lacks}
use boilerplate_express_ts.Idempotency.{record_key}

print-Lacks : (n : ℕ) → Lacks b':' (print n)
print-Lacks n = All-mono IsDigit (λ x. x ≢ b':') (print n) (λ x d e. omega arith) (print-IsDigit n)

take-append : (s t : Text) → take (length s) (s ++ t) ≡ s
take-append [] t = refl
take-append (c ∷ s) t = ap (λ (r : Text). c ∷ r) (take-append s t)

drop-append : (s t : Text) → drop (length s) (s ++ t) ≡ t
drop-append [] t = refl
drop-append (c ∷ s) t = drop-append s t

abbrev parts : Option (Text × Text) → Text × Text
parts none = ([], [])
parts (some (n, rest)) = (take (read n) rest, drop (read n) rest)

parts-record_key : (scope key : Text) → parts (cut b':' (record_key scope key)) ≡ (scope, key)
unfolding record_key
parts-record_key scope key =
    rw
      (
        cut-append b':' (print (length scope)) (scope ++ key) (print-Lacks (length scope)),
        read-print (length scope),
        take-append scope key,
        drop-append scope key,
      )
      refl

-- Two requests share a record only if they have the same scope and the same key, whatever characters
-- either holds.
pub record_key-injective :
    (scope key scope' key' : Text)
    → record_key scope key ≡ record_key scope' key'
    → (scope ≡ scope') × (key ≡ key')
record_key-injective scope key scope' key' e =
    let same : ◌≡◌ {A = Text × Text} (scope, key) (scope', key') =
      sym (parts-record_key scope key)
      ∙ ap (λ (k : Text). parts (cut b':' k)) e
      ∙ parts-record_key scope' key' in
    (ap (λ (p : Text × Text). p.0) same, ap (λ (p : Text × Text). p.1) same)
