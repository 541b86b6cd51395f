-- ===== src/CacheStore/Writes.antt =====
-- src/lib/route-decorators/cache-store.ts over a history: a value from its write until it expires.
use boilerplate_express_ts.Prelude.{
  ℕ, zero, suc, ◌+◌, ◌-◌, ◌≤◌, ◌<◌, ◌≡◌, refl, ap, ◌∙◌, ◌≢◌, ◌⊎◌, inl, inr, false, none, some, List,
  [], ◌∷◌, ◌++◌, leb, ltb, length, length-append, drop, Text, text_eq, text_eq_iff, text_eq_refl,
  arith, Bool-cases, Option-cases,
}
use boilerplate_express_ts.Prelude.Map
use boilerplate_express_ts.Prelude.Map.{Map, get-delete}
use boilerplate_express_ts.CacheStore.{
  StoredEntry, CacheStore, get, set, delete, clear, evict_expired, evict_if_needed,
}
use boilerplate_express_ts.CacheStore.Bound.{Event, gets, sets, deletes, clears, step, run}

module _ {V : Type 0} where
  -- The entry stands under the key, with at most `n` entries behind it.
  abbrev Holds : Text → StoredEntry V → ℕ → Map (StoredEntry V) → Type 0
  Holds key e n [] = ⊥
  Holds key e n ((j, v) ∷ m) =
      ((j ≡ key) × ((v ≡ e) × (length m ≤ n))) ⊎ ((text_eq j key ≡ false) × Holds key e n m)

  -- Nobody writes or deletes the key or clears the store, and the clock stays before the deadline.
  abbrev pub LeavesAlone : Text → ℕ → Event V → Type 0
  LeavesAlone key deadline (gets k now) = now < deadline
  LeavesAlone key deadline (sets k v ttl_ms now evict_now) = (k ≢ key) × (evict_now < deadline)
  LeavesAlone key deadline (deletes k) = k ≢ key
  LeavesAlone key deadline clears = ⊥

  abbrev pub AllLeaveAlone : Text → ℕ → List (Event V) → Type 0
  AllLeaveAlone key deadline [] = Unit
  AllLeaveAlone key deadline (e ∷ es) = LeavesAlone key deadline e × AllLeaveAlone key deadline es

  module _ (key : Text) (e : StoredEntry V) where
    get-Holds : (n : ℕ) (m : Map (StoredEntry V)) → Holds key e n m → Map.get key m ≡ some e
    unfolding Map.get
    get-Holds n [] h = elim h [ ]
    get-Holds n ((j, v) ∷ m) (inl (same, (is_e, _))) = rw (same, text_eq_refl key, is_e) refl
    get-Holds n ((j, v) ∷ m) (inr (other, h)) = rw other (get-Holds n m h)

    more-Holds : (n n' : ℕ) (m : Map (StoredEntry V)) → n ≤ n' → Holds key e n m → Holds key e n' m
    more-Holds n n' [] l h = h
    more-Holds n n' ((j, v) ∷ m) l (inl (same, (is_e, few))) =
        inl (same, (is_e, omega (arith, l, few)))
    more-Holds n n' ((j, v) ∷ m) l (inr (other, h)) = inr (other, more-Holds n n' m l h)

    delete-Holds :
        (n : ℕ) (k : Text) (m : Map (StoredEntry V))
        → k ≢ key
        → Holds key e n m
        → Holds key e n (Map.delete k m)
    unfolding Map.delete
    delete-Holds n k [] ne h = h
    delete-Holds n k ((j, v) ∷ m) ne (inl (same, (is_e, few))) =
        let kept : text_eq j k ≡ false = ground (arith, text_eq_iff j k) in
        rw kept (inl (same, (is_e, omega (arith, few, Map.length-delete k m))))
    delete-Holds n k ((j, v) ∷ m) ne (inr (other, h)) =
        let rest = delete-Holds n k m ne h in
        elim (Bool-cases (text_eq j k)) [
          | inl gone ↦ rw gone rest
          | inr kept ↦ rw kept (inr (other, rest))
        ]

    append-Holds :
        (n : ℕ) (k : Text) (v : StoredEntry V) (m : Map (StoredEntry V))
        → Holds key e n m
        → Holds key e (suc n) (m ++ (k, v) ∷ [])
    append-Holds n k v [] h = elim h [ ]
    append-Holds n k v ((j, w) ∷ m) (inl (same, (is_e, few))) =
        inl (same, (is_e, omega (arith, few, length-append m ((k, v) ∷ []))))
    append-Holds n k v ((j, w) ∷ m) (inr (other, h)) = inr (other, append-Holds n k v m h)

    new-Holds :
        (m : Map (StoredEntry V)) → Map.get key m ≡ none → Holds key e 0 (m ++ (key, e) ∷ [])
    unfolding Map.get
    new-Holds [] h = inl (refl, (refl, omega arith))
    new-Holds ((j, v) ∷ m) h = elim (Bool-cases (text_eq j key)) [
      | inl same ↦ absurd (ground arith)
      | inr other ↦ inr (other, new-Holds m (ground arith))
    ]

    drop-Holds :
        (n c : ℕ) (m : Map (StoredEntry V))
        → c + n < length m
        → Holds key e n m
        → Holds key e n (drop c m)
    drop-Holds n zero m l h = h
    drop-Holds n (suc c) [] l h = h
    drop-Holds n (suc c) ((j, v) ∷ m) l (inl (same, (is_e, few))) = absurd (omega (arith, l, few))
    drop-Holds n (suc c) ((j, v) ∷ m) l (inr (other, h)) = drop-Holds n c m (omega (arith, l)) h

    length-evict_expired :
        (max_entries now c : ℕ) (m : Map (StoredEntry V))
        → length (evict_expired max_entries now c m) ≤ length m
    unfolding evict_expired
    length-evict_expired max_entries now c [] = omega arith
    length-evict_expired max_entries now c ((j, v) ∷ m) = ground (
      arith,
      length-evict_expired max_entries now (c - 1) m,
      length-evict_expired max_entries now c m,
    )

    evict_expired-Holds :
        (n max_entries now c : ℕ) (m : Map (StoredEntry V))
        → now < e.expires_at
        → Holds key e n m
        → Holds key e n (evict_expired max_entries now c m)
    unfolding evict_expired
    evict_expired-Holds n max_entries now c [] live h = h
    evict_expired-Holds n max_entries now c ((j, v) ∷ m) live (inl (same, (is_e, few))) =
        let kept : leb v.expires_at now ≡ false = rw is_e (ground arith) in
        elim (Bool-cases (leb c max_entries)) [
          | inl enough ↦ rw enough (inl (same, (is_e, few)))
          | inr more ↦
              rw (more, kept)
                (inl (same, (is_e, omega (arith, few, length-evict_expired max_entries now c m))))
        ]
    evict_expired-Holds n max_entries now c ((j, v) ∷ m) live (inr (other, h)) =
        elim (Bool-cases (leb c max_entries)) [
          | inl enough ↦ rw enough (inr (other, h))
          | inr more ↦ elim (Bool-cases (leb v.expires_at now)) [
            | inl dead ↦ rw (more, dead) (evict_expired-Holds n max_entries now (c - 1) m live h)
            | inr alive ↦
                rw (more, alive) (inr (other, evict_expired-Holds n max_entries now c m live h))
          ]
        ]

    evict_if_needed-Holds :
        (n max_entries now : ℕ) (m : Map (StoredEntry V))
        → n < max_entries
        → now < e.expires_at
        → Holds key e n m
        → Holds key e n (evict_if_needed max_entries now m)
    unfolding evict_if_needed
    evict_if_needed-Holds n max_entries now m l live h =
        let kept = evict_expired max_entries now (length m) m in
        let held = evict_expired-Holds n max_entries now (length m) m live h in
        elim (Bool-cases (leb (length m) max_entries)) [
          | inl few ↦ rw few h
          | inr many ↦ elim (Bool-cases (leb (length kept) max_entries)) [
            | inl fits ↦
                let none_left : length kept - max_entries ≡ 0 = ground arith in
                rw (many, none_left) held
            | inr over ↦ rw many (drop-Holds n (length kept - max_entries) kept (ground arith) held)
          ]
        ]

    put-new :
        (k : Text) (v : StoredEntry V) (m : Map (StoredEntry V))
        → Map.put k v (Map.delete k m) ≡ Map.delete k m ++ (k, v) ∷ []
    unfolding Map.put Map.delete
    put-new k v [] = refl
    put-new k v ((j, w) ∷ m) = elim (Bool-cases (text_eq j k)) [
      | inl same ↦ rw same (put-new k v m)
      | inr other ↦ rw (other, other) (ap (λ t. (j, w) ∷ t) (put-new k v m))
    ]

    -- What is put at the end.
    put-Holds :
        (n : ℕ) (k : Text) (v : StoredEntry V) (m : Map (StoredEntry V))
        → k ≢ key
        → Holds key e n m
        → Holds key e (suc n) (Map.put k v (Map.delete k m))
    put-Holds n k v m ne h =
        rw (put-new k v m) (append-Holds n k v (Map.delete k m) (delete-Holds n k m ne h))

    put_self : (n : ℕ) (m : Map (StoredEntry V)) → Holds key e n (Map.put key e (Map.delete key m))
    put_self n m =
        let gone : Map.get key (Map.delete key m) ≡ none =
          get-delete key key m ∙ rw (text_eq_refl key) refl in
        rw (put-new key e m) (more-Holds 0 n _ (omega arith) (new-Holds (Map.delete key m) gone))

    get_event :
        (n now : ℕ) (k : Text) (s : CacheStore V)
        → now < e.expires_at
        → Holds key e n s.entries
        → Holds key e (suc n) (get k now s).0.entries
    unfolding get
    get_event n now k s live h = elim (Bool-cases (text_eq k key)) [
      | inl e' ↦
          let same : k ≡ key = (text_eq_iff k key).0 e' in
          let found : Map.get k s.entries ≡ some e = rw same (get-Holds n s.entries h) in
          let fresh : leb e.expires_at now ≡ false = ground arith in
          rw (found, fresh, get, same) (put_self (suc n) s.entries)
      | inr e' ↦
          let ne : k ≢ key = ground (arith, text_eq_iff k key) in
          elim (Option-cases (Map.get k s.entries)) [
            | inl missing ↦ rw (missing, get) (more-Holds n (suc n) s.entries (omega arith) h)
            | inr (v, found) ↦ elim (Bool-cases (leb v.expires_at now)) [
              | inl dead ↦
                  rw (found, dead, get)
                    (more-Holds n (suc n) _ (omega arith) (delete-Holds n k s.entries ne h))
              | inr alive ↦ rw (found, alive, get) (put-Holds n k v s.entries ne h)
            ]
          ]
    ]

    step-Holds :
        (n : ℕ) (s : CacheStore V) (event : Event V)
        → suc n < s.max_entries
        → LeavesAlone key e.expires_at event
        → Holds key e n s.entries
        → Holds key e (suc n) (step s event).entries
    unfolding step set delete
    step-Holds n s (gets k now) l live h = get_event n now k s live h
    step-Holds n s (sets k v ttl_ms now evict_now) l (ne, live) h =
        elim (Bool-cases (ltb ttl_ms 1)) [
          | inl refused ↦ rw (refused, step, set) (more-Holds n (suc n) s.entries (omega arith) h)
          | inr written ↦
              rw (written, step, set)
                (evict_if_needed-Holds (suc n) s.max_entries evict_now _ l live
                  (put-Holds n k (record { value = v; expires_at = now + ttl_ms }) s.entries ne h))
        ]
    step-Holds n s (deletes k) l ne h =
        more-Holds n (suc n) _ (omega arith) (delete-Holds n k s.entries ne h)
    step-Holds n s clears l never h = elim never [ ]

    max_entries-step :
        (s : CacheStore V) (event : Event V) → (step s event).max_entries ≡ s.max_entries
    unfolding step set delete clear get
    max_entries-step s (gets k now) = ground arith
    max_entries-step s (sets k v ttl_ms now evict_now) = ground arith
    max_entries-step s (deletes k) = refl
    max_entries-step s clears = refl

    run-Holds :
        (n : ℕ) (s : CacheStore V) (events : List (Event V))
        → n + length events < s.max_entries
        → AllLeaveAlone key e.expires_at events
        → Holds key e n s.entries
        → Holds key e (n + length events) (run s events).entries
    unfolding run
    run-Holds n s [] l alone h = more-Holds n _ s.entries (omega arith) h
    run-Holds n s (event ∷ events) l (alone, all) h =
        more-Holds (suc n + length events) _ _ (omega arith) (
          run-Holds (suc n) (step s event) events (omega (arith, l, max_entries-step s event)) all
            (step-Holds n s event (omega (arith, l)) alone h))

  -- A value that was written is what a read of its key gets, after any fewer other operations than the
  -- store has entries at most, if none of them writes or deletes the key or clears the store, and every
  -- eviction and every read comes strictly before the time to live has passed: what has to be evicted for
  -- other values is never this one.
  pub get-run :
      (key : Text) (value : V) (ttl_ms now evict_now later : ℕ) (s s' : CacheStore V)
      (events : List (Event V))
      → length events < s.max_entries
      → set key value ttl_ms now evict_now s ≡ some s'
      → evict_now < now + ttl_ms
      → AllLeaveAlone key (now + ttl_ms) events
      → later < now + ttl_ms
      → (get key later (run s' events)).1 ≡ some value
  unfolding set get
  get-run key value ttl_ms now evict_now later s s' events few written fresh alone before =
      let e : StoredEntry V = record { value = value; expires_at = now + ttl_ms } in
      let begun : Holds key e 0
          (evict_if_needed s.max_entries evict_now (Map.put key e (Map.delete key s.entries))) =
        evict_if_needed-Holds key e 0 s.max_entries evict_now _ (omega (arith, few)) fresh
          (put_self key e 0 s.entries) in
      let entries_of : s'.entries
          ≡ evict_if_needed s.max_entries evict_now (Map.put key e (Map.delete key s.entries)) =
        ground (arith, written) in
      let same_bound : s'.max_entries ≡ s.max_entries = ground (arith, written) in
      let held =
        run-Holds key e 0 s' events (omega (arith, few, same_bound)) alone (rw entries_of begun) in
      let found = get-Holds key e (0 + length events) (run s' events).entries held in
      let alive : leb e.expires_at later ≡ false = ground arith in rw (found, alive, get) refl
