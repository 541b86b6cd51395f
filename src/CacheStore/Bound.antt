-- ===== src/CacheStore/Bound.antt =====
-- src/lib/route-decorators/cache-store.ts over a history: the number of its entries.
use boilerplate_express_ts.Prelude.{
  ℕ, suc, ◌+◌, ◌-◌, ◌≤◌, ◌≡◌, inl, inr, none, some, List, [], ◌∷◌, leb, ltb, length, length-drop,
  Text, text_eq, arith, Bool-cases, Option-cases,
}
use boilerplate_express_ts.Prelude.Map
use boilerplate_express_ts.Prelude.Map.{Map}
use boilerplate_express_ts.CacheStore.{
  StoredEntry, CacheStore, create, get, set, delete, clear, evict_expired, evict_if_needed,
}

pub data Event (V : Type 0) : Type 0 where
  gets : Text → ℕ → Event V
  sets : Text → V → ℕ → ℕ → ℕ → Event V
  deletes : Text → Event V
  clears : Event V

module _ {V : Type 0} where
  unfoldable pub step : CacheStore V → Event V → CacheStore V
  step s (gets key now) = (get key now s).0
  step s (sets key value ttl_ms now evict_now) = elim (set key value ttl_ms now evict_now s) [
    | none ↦ s
    | some s' ↦ s'
  ]
  step s (deletes key) = delete key s
  step s clears = clear s

  unfoldable pub run : CacheStore V → List (Event V) → CacheStore V
  run s [] = s
  run s (e ∷ es) = run (step s e) es

  length-delete_found :
      (k : Text) (e : StoredEntry V) (m : Map (StoredEntry V))
      → Map.get k m ≡ some e
      → suc (length (Map.delete k m)) ≤ length m
  unfolding Map.get Map.delete
  length-delete_found k e [] h = cc
  length-delete_found k e ((j, v) ∷ m) h = elim (Bool-cases (text_eq j k)) [
    | inl same ↦ rw same (omega (arith, Map.length-delete k m))
    | inr other ↦
        let less = length-delete_found k e m (ground arith) in rw other (omega (arith, less))
  ]

  length-evict_if_needed :
      (n now : ℕ) (m : Map (StoredEntry V)) → length (evict_if_needed n now m) ≤ n
  unfolding evict_if_needed
  length-evict_if_needed n now m = elim (Bool-cases (leb (length m) n)) [
    | inl h ↦ rw h (ground arith)
    | inr h ↦
        let kept = evict_expired n now (length m) m in
        rw (h, length-drop (length kept - n) kept) (omega arith)
  ]

  abbrev IsBounded : ℕ → CacheStore V → Type 0
  IsBounded n s = (length s.entries ≤ n) × (s.max_entries ≡ n)

  get-IsBounded :
      (n : ℕ) (key : Text) (now : ℕ) (s : CacheStore V)
      → IsBounded n s
      → IsBounded n (get key now s).0
  unfolding get
  get-IsBounded n key now s h = elim (Option-cases (Map.get key s.entries)) [
    | inl e ↦ rw (e, get) h
    | inr (v, e) ↦
        let less = length-delete_found key v s.entries e in
        elim (Bool-cases (leb v.expires_at now)) [
          | inl f ↦ rw (e, f, get) (omega (arith, h.0, less), h.1)
          | inr f ↦
              rw (e, f, get)
                (omega (arith, h.0, less, Map.length-put key v (Map.delete key s.entries)), h.1)
        ]
  ]

  step-IsBounded : (n : ℕ) (e : Event V) (s : CacheStore V) → IsBounded n s → IsBounded n (step s e)
  unfolding step set delete clear
  step-IsBounded n (gets key now) s h = get-IsBounded n key now s h
  step-IsBounded n (sets key value ttl_ms now evict_now) s h = elim (Bool-cases (ltb ttl_ms 1)) [
    | inl e ↦ rw (e, step, set) h
    | inr e ↦
        rw (e, step, set)
          (
            omega (
              arith,
              h.1,
              length-evict_if_needed s.max_entries evict_now (
                  Map.put key (record { value = value; expires_at = now + ttl_ms })
                    (Map.delete key s.entries)),
            ),
            h.1,
          )
  ]
  step-IsBounded n (deletes key) s h = (omega (arith, h.0, Map.length-delete key s.entries), h.1)
  step-IsBounded n clears s h = (omega arith, h.1)

  run-IsBounded :
      (n : ℕ) (es : List (Event V)) (s : CacheStore V) → IsBounded n s → IsBounded n (run s es)
  unfolding run
  run-IsBounded n [] s h = h
  run-IsBounded n (e ∷ es) s h = run-IsBounded n es (step s e) (step-IsBounded n e s h)

  -- A store never holds more entries than it was created for, whatever is written, read and deleted.
  pub length-run :
      (max_entries : ℕ) (s : CacheStore V) (es : List (Event V))
      → create max_entries ≡ some s
      → length (run s es).entries ≤ max_entries
  unfolding create
  length-run max_entries s es h = (run-IsBounded max_entries es s (ground arith)).0
