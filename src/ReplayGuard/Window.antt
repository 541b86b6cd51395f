-- ===== src/ReplayGuard/Window.antt =====
-- src/webhooks/replay-guard.ts over a history of deliveries: a nonce from its acceptance to its expiry.
use boilerplate_express_ts.Prelude.{
  ℕ, ◌<◌, ◌≡◌, refl, sym, subst, inl, inr, true, false, Option, none, some, List, [], ◌∷◌, ltb,
  Text, text_eq, text_eq_iff, arith, Bool-cases,
}
use boilerplate_express_ts.Prelude.Map
use boilerplate_express_ts.Prelude.Map.{Map, HasDistinctKeys, IsFresh}
use boilerplate_express_ts.ReplayGuard.{
  accepted, replayed, MemoryReplayGuard, is_stale, sweep, is_full, record_key, admit, judge,
  remember,
}

-- A delivery: its nonce, when the nonce may be forgotten, and the reading of the clock.
pub record Delivery : Type 0 where
  pub key : Text
  pub expires_at : ℕ
  pub now : ℕ

unfoldable pub after : List Delivery → MemoryReplayGuard → MemoryReplayGuard
after [] g = g
after (d ∷ ds) g = after ds (remember d.key d.expires_at d.now g).0

abbrev pub AllBefore : ℕ → List Delivery → Type 0
AllBefore t [] = Unit
AllBefore t (d ∷ ds) = (d.now < t) × AllBefore t ds

-- The guard holds `key` until `t`.
abbrev Holds : Text → ℕ → MemoryReplayGuard → Type 0
Holds key t g = Map.get key g.seen ≡ some t

sweep-Holds :
    (key : Text) (t now : ℕ) (g : MemoryReplayGuard)
    → now < t
    → Holds key t g
    → Holds key t (sweep now g)
unfolding sweep
sweep-Holds key t now g le h =
    Map.get-delete_if_kept (is_stale now) key t g.seen h (ground (arith, le))

record-Holds :
    (key other : Text) (t e : ℕ) (g : MemoryReplayGuard)
    → text_eq other key ≡ false
    → Holds key t g
    → Holds key t (record_key other e g).0
record-Holds key other t e g differs h = ground (arith, differs, h, Map.get-put other key e g.seen)

admit-Holds :
    (key other : Text) (t e now : ℕ) (g : MemoryReplayGuard)
    → text_eq other key ≡ false
    → now < t
    → Holds key t g
    → Holds key t (admit other e now g).0
unfolding admit
admit-Holds key other t e now g differs le h =
    let kept = sweep-Holds key t now g le h in
    elim (Bool-cases (is_full g)) [
      | inr room ↦ rw (room, admit) (record-Holds key other t e g differs h)
      | inl full ↦ elim (Bool-cases (is_full (sweep now g))) [
        | inl still ↦ rw (full, still, admit) kept
        | inr made ↦ rw (full, made, admit) (record-Holds key other t e (sweep now g) differs kept)
      ]
    ]

judge-Holds :
    (key other : Text) (t e now : ℕ) (o : Option ℕ) (g : MemoryReplayGuard)
    → text_eq other key ≡ false
    → now < t
    → Holds key t g
    → Holds key t (judge other e now o g).0
unfolding judge
judge-Holds key other t e now none g differs le h = admit-Holds key other t e now g differs le h
judge-Holds key other t e now (some held) g differs le h = elim (Bool-cases (ltb now held)) [
  | inl live ↦ rw (live, judge) h
  | inr stale ↦
      rw (stale, judge)
        (admit-Holds key other t e now (record g { seen = Map.delete other g.seen }) differs le
          (ground (arith, differs, h, Map.get-delete other key g.seen)))
]

held_replayed :
    (key : Text) (t e now : ℕ) (g : MemoryReplayGuard)
    → now < t
    → Holds key t g
    → remember key e now g ≡ (g, replayed)
unfolding remember judge
held_replayed key t e now g le h =
    let live : ltb now t ≡ true = ground (arith, le) in rw (h, live) refl

remember-Holds :
    (key : Text) (t : ℕ) (d : Delivery) (g : MemoryReplayGuard)
    → d.now < t
    → Holds key t g
    → Holds key t (remember d.key d.expires_at d.now g).0
unfolding remember
remember-Holds key t d g le h = elim (Bool-cases (text_eq d.key key)) [
  | inr differs ↦ judge-Holds key d.key t d.expires_at d.now (Map.get d.key g.seen) g differs le h
  | inl e ↦
      let same : d.key ≡ key = (text_eq_iff d.key key).0 e in
      let unchanged : remember d.key d.expires_at d.now g ≡ (g, replayed) =
        rw same (held_replayed key t d.expires_at d.now g le h) in
      subst (λ r. Holds key t r.0) (sym unchanged) h
]

after-Holds :
    (key : Text) (t : ℕ) (ds : List Delivery) (g : MemoryReplayGuard)
    → AllBefore t ds
    → Holds key t g
    → Holds key t (after ds g)
unfolding after
after-Holds key t [] g le h = h
after-Holds key t (d ∷ ds) g le h =
    after-Holds key t ds (remember d.key d.expires_at d.now g).0 le.1
      (remember-Holds key t d g le.0 h)

record_key-Holds : (key : Text) (e : ℕ) (g : MemoryReplayGuard) → Holds key e (record_key key e g).0
record_key-Holds key e g = ground (arith, Map.get-put key key e g.seen, text_eq_iff key key)

admit-accepted :
    (key : Text) (e now : ℕ) (g : MemoryReplayGuard)
    → (admit key e now g).1 ≡ accepted
    → Holds key e (admit key e now g).0
unfolding admit
admit-accepted key e now g h = elim (Bool-cases (is_full g)) [
  | inr room ↦ rw (room, admit) (record_key-Holds key e g)
  | inl full ↦ elim (Bool-cases (is_full (sweep now g))) [
    | inl still ↦ absurd (ground (arith, h, full, still))
    | inr made ↦ rw (full, made, admit) (record_key-Holds key e (sweep now g))
  ]
]

judge-accepted :
    (key : Text) (e now : ℕ) (o : Option ℕ) (g : MemoryReplayGuard)
    → (judge key e now o g).1 ≡ accepted
    → Holds key e (judge key e now o g).0
unfolding judge
judge-accepted key e now none g h = admit-accepted key e now g h
judge-accepted key e now (some held) g h = elim (Bool-cases (ltb now held)) [
  | inl live ↦ absurd (ground (arith, h, live))
  | inr stale ↦
      rw (stale, judge)
        (admit-accepted key e now (record g { seen = Map.delete key g.seen })
          (ground (arith, h, stale)))
]

new_Holds :
    (key : Text) (e now : ℕ) (g : MemoryReplayGuard)
    → (remember key e now g).1 ≡ accepted
    → Holds key e (remember key e now g).0
unfolding remember
new_Holds key e now g h = judge-accepted key e now (Map.get key g.seen) g h

-- A nonce that was accepted is replayed whenever it is presented again before it expires, with any
-- expiry, whatever was presented in between, as long as no clock reading reached its expiry; and
-- the guard is not changed by it.
pub accepted_once :
    (key : Text) (expires_at now again later : ℕ) (ds : List Delivery) (g : MemoryReplayGuard)
    → (remember key expires_at now g).1 ≡ accepted
    → AllBefore expires_at ds
    → later < expires_at
    → remember key again later (after ds (remember key expires_at now g).0)
      ≡ (after ds (remember key expires_at now g).0, replayed)
accepted_once key expires_at now again later ds g h le in_time =
    let first : Holds key expires_at (remember key expires_at now g).0 =
      new_Holds key expires_at now g h in
    held_replayed key expires_at again later (after ds (remember key expires_at now g).0) in_time
      (after-Holds key expires_at ds (remember key expires_at now g).0 le first)
