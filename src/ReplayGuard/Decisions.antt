-- ===== src/ReplayGuard/Decisions.antt =====
-- src/webhooks/replay-guard.ts: the decision by the records that have not expired.
use boilerplate_express_ts.Prelude.{
  ℕ, ◌+◌, ◌≤◌, ◌≡◌, refl, ap, subst, inl, inr, Bool, false, Option, none, some, List, [], ◌∷◌, leb,
  ltb, ◌==◌, if◌then◌else◌, length, Text, text_eq, text_eq_iff, arith, Bool-cases,
}
use boilerplate_express_ts.Prelude.Map
use boilerplate_express_ts.Prelude.Map.{Map, HasDistinctKeys, IsFresh}
use boilerplate_express_ts.ReplayGuard.{
  ReplayDecision, accepted, replayed, cache_full, MemoryReplayGuard, create, is_stale, sweep,
  is_full, record_key, admit, judge, remember, size,
}
use boilerplate_express_ts.ReplayGuard.Window.{Delivery, after}

-- The record is not expired.
abbrev pub is_live : ℕ → ℕ → Bool
is_live now expires_at = ltb now expires_at

abbrev pub holds_live : ℕ → Option ℕ → Bool
holds_live now none = false
holds_live now (some held) = is_live now held

-- The decision without a sweep: a live record of the key, then the room beside the live records.
abbrev pub decide : Text → ℕ → MemoryReplayGuard → ReplayDecision
decide key now g =
    if holds_live now (Map.get key g.seen)
    then replayed
    else if leb g.max_entries (Map.count_if (is_live now) g.seen)
    then cache_full
    else accepted

live-sweep :
    (now : ℕ) (m : Map ℕ) → length (Map.delete_if (is_stale now) m) ≡ Map.count_if (is_live now) m
unfolding Map.delete_if Map.count_if
live-sweep now [] = refl
live-sweep now ((k, e) ∷ m) = ground (arith, live-sweep now m)

live-le : (now : ℕ) (m : Map ℕ) → Map.count_if (is_live now) m ≤ length m
unfolding Map.count_if
live-le now [] = omega arith
live-le now ((k, e) ∷ m) = ground (arith, live-le now m)

fresh-delete : (key : Text) (m : Map ℕ) → IsFresh key m → Map.delete key m ≡ m
unfolding Map.delete
fresh-delete key [] h = refl
fresh-delete key ((k, e) ∷ m) h =
    let other : text_eq k key ≡ false = ground (arith, h.0, text_eq_iff k key) in
    rw other (ap (λ n. (k, e) ∷ n) (fresh-delete key m h.1))

live-delete :
    (key : Text) (now held : ℕ) (m : Map ℕ)
    → HasDistinctKeys m
    → Map.get key m ≡ some held
    → is_live now held ≡ false
    → Map.count_if (is_live now) (Map.delete key m) ≡ Map.count_if (is_live now) m
unfolding Map.get Map.delete Map.count_if
live-delete key now held [] h g stale = refl
live-delete key now held ((k, e) ∷ m) h g stale = elim (Bool-cases (text_eq k key)) [
  | inl same ↦
      let key_is : k ≡ key = (text_eq_iff k key).0 same in
      let fresh : IsFresh key m = subst (λ (j : Text). IsFresh j m) key_is h.0 in
      let gone : is_live now e ≡ false = ground (arith, same, g, stale) in
      rw (same, fresh-delete key m fresh, gone) (omega arith)
  | inr other ↦
      let rest = live-delete key now held m h.1 (ground (arith, other, g)) stale in
      rw other (ap (λ n. (if is_live now e then 1 else 0) + n) rest)
]

admit-decides :
    (key : Text) (e now : ℕ) (g : MemoryReplayGuard)
    → (admit key e now g).1
      ≡ (if leb g.max_entries (Map.count_if (is_live now) g.seen) then cache_full else accepted)
unfolding admit sweep
admit-decides key e now g =
    let swept = live-sweep now g.seen in
    let fewer = live-le now g.seen in
    elim (Bool-cases (leb g.max_entries (length g.seen))) [
      | inr room ↦
          let live : leb g.max_entries (Map.count_if (is_live now) g.seen) ≡ false =
            ground (arith, room, fewer) in
          rw (room, live, admit) refl
      | inl full ↦ elim (Bool-cases (leb g.max_entries (Map.count_if (is_live now) g.seen))) [
        | inl live ↦ rw (full, swept, live, admit, sweep) refl
        | inr live ↦ rw (full, swept, live, admit, sweep) refl
      ]
    ]

judge-decides :
    (key : Text) (e now : ℕ) (o : Option ℕ) (g : MemoryReplayGuard)
    → HasDistinctKeys g.seen
    → Map.get key g.seen ≡ o
    → (judge key e now o g).1 ≡ decide key now g
unfolding judge
judge-decides key e now none g h found = rw found (admit-decides key e now g)
judge-decides key e now (some held) g h found = elim (Bool-cases (ltb now held)) [
  | inl live ↦ rw (found, live, judge) refl
  | inr stale ↦
      let deleted = live-delete key now held g.seen h found stale in
      let less = admit-decides key e now (record g { seen = Map.delete key g.seen }) in
      rw (found, stale, judge)
        (subst
          (λ n.
            (admit key e now (record g { seen = Map.delete key g.seen })).1
            ≡ (if leb g.max_entries n then cache_full else accepted))
          deleted less)
]

-- The keys are distinct, and the records within the bound.
abbrev IsSound : ℕ → MemoryReplayGuard → Type 0
IsSound n g = HasDistinctKeys g.seen × (length g.seen ≤ n) × (g.max_entries ≡ n)

record-IsSound :
    (n : ℕ) (key : Text) (e : ℕ) (g : MemoryReplayGuard)
    → IsSound n g
    → is_full g ≡ false
    → IsSound n (record_key key e g).0
record-IsSound n key e g h room = (
  Map.put-HasDistinctKeys key e g.seen h.0,
  ground (arith, room, h, Map.length-put key e g.seen),
  h.2,
)

sweep-IsSound : (n now : ℕ) (g : MemoryReplayGuard) → IsSound n g → IsSound n (sweep now g)
unfolding sweep
sweep-IsSound n now g h = (
  Map.delete_if-HasDistinctKeys (is_stale now) g.seen h.0,
  omega (arith, h.1, Map.length-delete_if (is_stale now) g.seen),
  h.2,
)

delete-IsSound :
    (n : ℕ) (key : Text) (g : MemoryReplayGuard)
    → IsSound n g
    → IsSound n (record g { seen = Map.delete key g.seen })
delete-IsSound n key g h = (
  Map.delete-HasDistinctKeys key g.seen h.0,
  omega (arith, h.1, Map.length-delete key g.seen),
  h.2,
)

admit-IsSound :
    (n : ℕ) (key : Text) (e now : ℕ) (g : MemoryReplayGuard)
    → IsSound n g
    → IsSound n (admit key e now g).0
unfolding admit
admit-IsSound n key e now g h = elim (Bool-cases (is_full g)) [
  | inr room ↦ rw (room, admit) (record-IsSound n key e g h room)
  | inl full ↦ elim (Bool-cases (is_full (sweep now g))) [
    | inl still ↦ rw (full, still, admit) (sweep-IsSound n now g h)
    | inr made ↦
        rw (full, made, admit) (record-IsSound n key e (sweep now g) (sweep-IsSound n now g h) made)
  ]
]

judge-IsSound :
    (n : ℕ) (key : Text) (e now : ℕ) (o : Option ℕ) (g : MemoryReplayGuard)
    → IsSound n g
    → IsSound n (judge key e now o g).0
unfolding judge
judge-IsSound n key e now none g h = admit-IsSound n key e now g h
judge-IsSound n key e now (some held) g h = elim (Bool-cases (ltb now held)) [
  | inl live ↦ rw (live, judge) h
  | inr stale ↦
      rw (stale, judge)
        (admit-IsSound n key e now (record g { seen = Map.delete key g.seen })
          (delete-IsSound n key g h))
]

after-IsSound :
    (n : ℕ) (ds : List Delivery) (g : MemoryReplayGuard) → IsSound n g → IsSound n (after ds g)
unfolding after remember
after-IsSound n [] g h = h
after-IsSound n (d ∷ ds) g h =
    after-IsSound n ds (remember d.key d.expires_at d.now g).0
      (judge-IsSound n d.key d.expires_at d.now (Map.get d.key g.seen) g h)

created-IsSound :
    (max_entries : ℕ) (g : MemoryReplayGuard) → create max_entries ≡ some g → IsSound max_entries g
unfolding create
created-IsSound max_entries g h = elim (Bool-cases (max_entries == 0)) [
  | inl e ↦ absurd (ground (arith, h))
  | inr e ↦
      let new : MemoryReplayGuard = record { seen = []; max_entries = max_entries } in
      let same : new ≡ g = ground arith in subst (IsSound max_entries) same (tt, omega arith, refl)
]

module _ (max_entries : ℕ) (g : MemoryReplayGuard) (ds : List Delivery)
    (made : create max_entries ≡ some g) where
  -- A guard that was created decides, after any history, by the records that have not expired: a nonce
  -- with such a record is replayed, any other is refused when they fill the guard, and accepted
  -- otherwise. The guard never holds more records than it was created for.
  pub remember-decide :
      (key : Text) (expires_at now : ℕ)
      → ((remember key expires_at now (after ds g)).1 ≡ decide key now (after ds g))
        × (size (remember key expires_at now (after ds g)).0 ≤ max_entries)
  unfolding remember size
  remember-decide key expires_at now =
      let sound = after-IsSound max_entries ds g (created-IsSound max_entries g made) in
      let held = Map.get key (after ds g).seen in
      (
        judge-decides key expires_at now held (after ds g) sound.0 refl,
        (judge-IsSound max_entries key expires_at now held (after ds g) sound).1,
      )
