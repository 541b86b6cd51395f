-- ===== src/StreamGroup/Retention.antt =====
-- src/redis/stream.memory.ts: what each operation of a group leaves on its pending list.
use boilerplate_express_ts.Prelude.{
  ℕ, suc, ◌≡◌, ◌≢◌, ◌⊎◌, refl, sym, subst, inl, inr, Bool, true, false, ◌||◌, Option, none, some,
  List, [], ◌∷◌, leb, Text, text_eq, text_eq_iff, All, arith, Bool-cases,
}
use boilerplate_express_ts.Prelude.Map
use boilerplate_express_ts.Prelude.Map.{Map}
use boilerplate_express_ts.StreamGroup.{
  StreamEntry, PendingRecord, is_new, is_pending, is_idle, find_entry, deliver, ack_each, claim_one,
  claim_each,
}

-- The ids name `id`.
abbrev pub mentions : Text → List Text → Bool
mentions id [] = false
mentions id (x ∷ xs) = text_eq x id || mentions id xs

-- The entry is on the pending list.
abbrev pub is_held : Text → Map PendingRecord → Bool
is_held id pending = is_pending (Map.get id pending)

held-put :
    (id k : Text) (r : PendingRecord) (pending : Map PendingRecord)
    → is_held id pending ≡ true
    → is_held id (Map.put k r pending) ≡ true
held-put id k r pending h = elim (Bool-cases (text_eq k id)) [
  | inl same ↦ rw (Map.get-put k id r pending, same) refl
  | inr other ↦ rw (Map.get-put k id r pending, other) h
]

put-held :
    (id : Text) (r : PendingRecord) (pending : Map PendingRecord)
    → is_held id (Map.put id r pending) ≡ true
put-held id r pending = ground (arith, Map.get-put id id r pending, text_eq_iff id id)

held-delete :
    (id k : Text) (pending : Map PendingRecord)
    → text_eq k id ≡ false
    → is_held id pending ≡ true
    → is_held id (Map.delete k pending) ≡ true
held-delete id k pending other h = rw (Map.get-delete k id pending, other) h

pub ack_each-held :
    (id : Text) (ids : List Text) (pending : Map PendingRecord)
    → mentions id ids ≡ false
    → is_held id pending ≡ true
    → is_held id (ack_each ids pending).0 ≡ true
unfolding ack_each
ack_each-held id [] pending free h = h
ack_each-held id (k ∷ ids) pending free h =
    ack_each-held id ids (Map.delete k pending) (ground (arith, free))
      (held-delete id k pending (ground (arith, free)) h)

module _ (consumer : Text) (count : ℕ) (clock : ℕ → ℕ) where
  pub deliver-held :
      (id : Text) (n : ℕ) (es : List StreamEntry) (cursor : Option Text)
      (pending : Map PendingRecord)
      → is_held id pending ≡ true
      → is_held id (deliver consumer count clock n es cursor pending).pending ≡ true
  unfolding deliver
  deliver-held id n [] cursor pending h = h
  deliver-held id n (e ∷ es) cursor pending h = elim (Bool-cases (leb count n)) [
    | inl full ↦ rw full h
    | inr room ↦ elim (Bool-cases (is_new e.id cursor)) [
      | inr old ↦ rw (room, old) (deliver-held id n es cursor pending h)
      | inl new ↦
          let handed : PendingRecord = record {
            consumer = consumer;
            delivered_at = clock n;
            delivery_count = 1;
          } in
          rw (room, new)
            (deliver-held id (suc n) es (some e.id) (Map.put e.id handed pending)
              (held-put id e.id handed pending h))
    ]
  ]

  -- Whatever a read hands out is on the pending list.
  pub deliver-All :
      (n : ℕ) (es : List StreamEntry) (cursor : Option Text) (pending : Map PendingRecord)
      → All
          (λ (e : StreamEntry).
            is_held e.id (deliver consumer count clock n es cursor pending).pending ≡ true)
          (deliver consumer count clock n es cursor pending).delivered
  unfolding deliver
  deliver-All n [] cursor pending = tt
  deliver-All n (e ∷ es) cursor pending = elim (Bool-cases (leb count n)) [
    | inl full ↦ rw full tt
    | inr room ↦ elim (Bool-cases (is_new e.id cursor)) [
      | inr old ↦ rw (room, old) (deliver-All n es cursor pending)
      | inl new ↦
          let handed : PendingRecord = record {
            consumer = consumer;
            delivered_at = clock n;
            delivery_count = 1;
          } in
          let next = Map.put e.id handed pending in
          rw (room, new)
            (
              deliver-held e.id (suc n) es (some e.id) next (put-held e.id handed pending),
              deliver-All (suc n) es (some e.id) next,
            )
    ]
  ]

module _ (consumer : Text) (min_idle_ms now : ℕ) where
  -- A claim of an id leaves the others, and itself where its entry is stored.
  claim_one-held :
      (id k : Text) (o : Option PendingRecord) (f : Option StreamEntry)
      (pending : Map PendingRecord)
      → (text_eq k id ≡ false) ⊎ (f ≢ none)
      → is_held id pending ≡ true
      → is_held id (claim_one consumer min_idle_ms now k o f pending).0 ≡ true
  unfolding claim_one
  claim_one-held id k none f pending safe h = h
  claim_one-held id k (some held) (some e) pending safe h =
      elim (Bool-cases (is_idle now min_idle_ms held)) [
        | inr floor ↦ rw floor h
        | inl idle ↦
            let claimed : PendingRecord = record {
              consumer = consumer;
              delivered_at = now;
              delivery_count = suc held.delivery_count;
            } in
            rw idle (held-put id k claimed pending h)
      ]
  claim_one-held id k (some held) none pending safe h =
      elim (Bool-cases (is_idle now min_idle_ms held)) [
        | inr floor ↦ rw floor h
        | inl idle ↦ elim safe [
          | inl other ↦ rw idle (held-delete id k pending other h)
          | inr stored ↦ absurd (stored refl)
        ]
      ]

  pub claim_each-held :
      (id : Text) (es : List StreamEntry) (ids : List Text) (pending : Map PendingRecord)
      → find_entry id es ≢ none
      → is_held id pending ≡ true
      → is_held id (claim_each consumer min_idle_ms now es ids pending).0 ≡ true
  unfolding claim_each
  claim_each-held id es [] pending stored h = h
  claim_each-held id es (k ∷ ids) pending stored h =
      let safe : (text_eq k id ≡ false) ⊎ (find_entry k es ≢ none) =
        elim (Bool-cases (text_eq k id)) [
          | inr other ↦ inl other
          | inl same ↦
              let key : id ≡ k = sym ((text_eq_iff k id).0 same) in
              inr (subst (λ (x : Text). find_entry x es ≢ none) key stored)
        ] in
      let next =
        claim_one consumer min_idle_ms now k (Map.get k pending) (find_entry k es) pending in
      claim_each-held id es ids next.0 stored
        (claim_one-held id k (Map.get k pending) (find_entry k es) pending safe h)
