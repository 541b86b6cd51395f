-- ===== src/Prelude/Map.antt =====
-- JavaScript's `Map` with text keys: the entries in insertion order.

use Prim.Native.Nat.{ℕ, ◌+◌, ◌≤◌}
use mathlib.Core.Path.{◌≡◌, refl, sym, subst}
use mathlib.Core.Logic.{◌≢◌, inl, inr}
use mathlib.Core.Bool.{Bool, false}
use mathlib.Core.Option.{Option, none, some}
use mathlib.Core.List.{List, [], ◌∷◌}
use native.Mathlib.Omega.{arith}
use boilerplate_express_ts.Prelude.Tests.{if◌then◌else◌, Bool-cases}
use boilerplate_express_ts.Prelude.Lists.{length}
use boilerplate_express_ts.Prelude.Strings.{Text, text_eq, text_eq_iff}

abbrev pub Map {ℓ} : Type ℓ → Type ℓ
Map V = List (Text × V)

module _ {ℓ} {V : Type ℓ} where
  unfoldable pub get : Text → Map V → Option V
  get k [] = none
  get k ((j, v) ∷ m) = if text_eq j k then some v else get k m

  -- An entry with the key is overwritten where it stands; a new one goes to the end.
  unfoldable pub put : Text → V → Map V → Map V
  put k v [] = (k, v) ∷ []
  put k v ((j, w) ∷ m) = let rest = put k v m in if text_eq j k then (k, v) ∷ m else (j, w) ∷ rest

  unfoldable pub delete : Text → Map V → Map V
  delete k [] = []
  delete k ((j, v) ∷ m) = let rest = delete k m in if text_eq j k then rest else (j, v) ∷ rest

  -- The loop `for (const [k, v] of m) if (p(v)) m.delete(k)`.
  unfoldable pub delete_if : (V → Bool) → Map V → Map V
  delete_if p [] = []
  delete_if p ((j, v) ∷ m) = let rest = delete_if p m in if p v then rest else (j, v) ∷ rest

  pub get-put :
      (k j : Text) (v : V) (m : Map V)
      → get j (put k v m) ≡ (if text_eq k j then some v else get j m)
  unfolding get put
  get-put k j v [] = refl
  get-put k j v ((i, w) ∷ m) =
      ground (arith, text_eq_iff k j, text_eq_iff i k, text_eq_iff i j, get-put k j v m)

  pub get-delete :
      (k j : Text) (m : Map V) → get j (delete k m) ≡ (if text_eq k j then none else get j m)
  unfolding get delete
  get-delete k j [] = ground arith
  get-delete k j ((i, w) ∷ m) =
      ground (arith, text_eq_iff k j, text_eq_iff i k, text_eq_iff i j, get-delete k j m)

  -- The keys of a `Map` are distinct.
  abbrev pub IsFresh : Text → Map V → Type ℓ
  IsFresh k [] = Unit
  IsFresh k ((j, v) ∷ m) = (j ≢ k) × IsFresh k m

  abbrev pub HasDistinctKeys : Map V → Type ℓ
  HasDistinctKeys [] = Unit
  HasDistinctKeys ((k, v) ∷ m) = IsFresh k m × HasDistinctKeys m

  unfoldable pub count_if : (V → Bool) → Map V → ℕ
  count_if p [] = 0
  count_if p ((j, v) ∷ m) = (if p v then 1 else 0) + count_if p m

  -- An entry that the loop keeps is found afterwards.
  pub get-delete_if_kept :
      (p : V → Bool) (k : Text) (v : V) (m : Map V)
      → get k m ≡ some v
      → p v ≡ false
      → get k (delete_if p m) ≡ some v
  unfolding get delete_if
  get-delete_if_kept p k v [] e keep = cc
  get-delete_if_kept p k v ((j, w) ∷ m) e keep = ground (arith, get-delete_if_kept p k v m)

  -- Every entry counted is deleted, and no other.
  pub length-delete_if :
      (p : V → Bool) (m : Map V) → length (delete_if p m) + count_if p m ≡ length m
  unfolding delete_if count_if
  length-delete_if p [] = omega arith
  length-delete_if p ((j, w) ∷ m) = ground (arith, length-delete_if p m)

  pub length-delete : (k : Text) (m : Map V) → length (delete k m) ≤ length m
  unfolding delete
  length-delete k [] = omega arith
  length-delete k ((j, v) ∷ m) = ground (arith, length-delete k m)

  pub length-put : (k : Text) (v : V) (m : Map V) → length (put k v m) ≤ 1 + length m
  unfolding put
  length-put k v [] = omega arith
  length-put k v ((j, w) ∷ m) = ground (arith, length-put k v m)

  put-IsFresh : (k j : Text) (v : V) (m : Map V) → j ≢ k → IsFresh k m → IsFresh k (put j v m)
  unfolding put
  put-IsFresh k j v [] h fresh = (h, tt)
  put-IsFresh k j v ((i, w) ∷ m) h fresh = elim (Bool-cases (text_eq i j)) [
    | inl e ↦ rw e (h, fresh.1)
    | inr e ↦ rw e (fresh.0, put-IsFresh k j v m h fresh.1)
  ]

  pub put-HasDistinctKeys :
      (k : Text) (v : V) (m : Map V) → HasDistinctKeys m → HasDistinctKeys (put k v m)
  unfolding put
  put-HasDistinctKeys k v [] h = (tt, tt)
  put-HasDistinctKeys k v ((j, w) ∷ m) h = elim (Bool-cases (text_eq j k)) [
    | inl e ↦ rw e (subst (λ (i : Text). IsFresh i m) ((text_eq_iff j k).0 e) h.0, h.1)
    | inr e ↦ rw e (
      put-IsFresh j k v m (λ same. absurd (ground (arith, text_eq_iff j k, sym same))) h.0,
      put-HasDistinctKeys k v m h.1,
    )
  ]

  delete-IsFresh : (k j : Text) (m : Map V) → IsFresh k m → IsFresh k (delete j m)
  unfolding delete
  delete-IsFresh k j [] fresh = tt
  delete-IsFresh k j ((i, w) ∷ m) fresh = elim (Bool-cases (text_eq i j)) [
    | inl e ↦ rw e (delete-IsFresh k j m fresh.1)
    | inr e ↦ rw e (fresh.0, delete-IsFresh k j m fresh.1)
  ]

  pub delete-HasDistinctKeys :
      (k : Text) (m : Map V) → HasDistinctKeys m → HasDistinctKeys (delete k m)
  unfolding delete
  delete-HasDistinctKeys k [] h = tt
  delete-HasDistinctKeys k ((j, w) ∷ m) h = elim (Bool-cases (text_eq j k)) [
    | inl e ↦ rw e (delete-HasDistinctKeys k m h.1)
    | inr e ↦ rw e (delete-IsFresh j k m h.0, delete-HasDistinctKeys k m h.1)
  ]

  delete_if-IsFresh :
      (p : V → Bool) (k : Text) (m : Map V) → IsFresh k m → IsFresh k (delete_if p m)
  unfolding delete_if
  delete_if-IsFresh p k [] fresh = tt
  delete_if-IsFresh p k ((i, w) ∷ m) fresh = elim (Bool-cases (p w)) [
    | inl e ↦ rw e (delete_if-IsFresh p k m fresh.1)
    | inr e ↦ rw e (fresh.0, delete_if-IsFresh p k m fresh.1)
  ]

  pub delete_if-HasDistinctKeys :
      (p : V → Bool) (m : Map V) → HasDistinctKeys m → HasDistinctKeys (delete_if p m)
  unfolding delete_if
  delete_if-HasDistinctKeys p [] h = tt
  delete_if-HasDistinctKeys p ((j, w) ∷ m) h = elim (Bool-cases (p w)) [
    | inl e ↦ rw e (delete_if-HasDistinctKeys p m h.1)
    | inr e ↦ rw e (delete_if-IsFresh p j m h.0, delete_if-HasDistinctKeys p m h.1)
  ]
