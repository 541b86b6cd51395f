-- ===== src/StreamGroup/Claims.antt =====
-- src/redis/stream.memory.ts: two claims of a group.
use boilerplate_express_ts.Prelude.{
  ℕ, suc, ◌+◌, ◌<◌, ◌≡◌, ◌≢◌, refl, sym, subst, ◌∙◌, inl, inr, false, Option, none, some, List, [],
  ◌∷◌, Text, text_eq, text_eq_iff, All, All-mono, arith, Bool-cases, Option-cases,
}
use boilerplate_express_ts.Prelude.Map
use boilerplate_express_ts.Prelude.Map.{Map}
use boilerplate_express_ts.StreamGroup.{
  StreamEntry, PendingRecord, Group, is_idle, find_entry, claim_one, cons_some, claim_each,
  claim_in_group,
}

pub find_entry-id :
    (id : Text) (es : List StreamEntry) (e : StreamEntry) → find_entry id es ≡ some e → e.id ≡ id
unfolding find_entry
find_entry-id id [] e h = cc
find_entry-id id (f ∷ es) e h = elim (Bool-cases (text_eq f.id id)) [
  | inl same ↦
      let this : f ≡ e = ground (arith, h, same) in
      let key : f.id ≡ id = (text_eq_iff f.id id).0 same in
      subst (λ (x : StreamEntry). x.id ≡ id) this key
  | inr other ↦ find_entry-id id es e (ground (arith, h, other))
]

-- The entry was delivered or claimed at `t`.
abbrev DeliveredAt : ℕ → Text → Map PendingRecord → Type 0
DeliveredAt t k pending =
    (held : PendingRecord) × (Map.get k pending ≡ some held) × (held.delivered_at ≡ t)

-- No entry of the list has the id.
abbrev pub IsWithout : Text → List StreamEntry → Type 0
IsWithout k es = All (λ (e : StreamEntry). e.id ≢ k) es

put-DeliveredAt :
    (t : ℕ) (k id : Text) (r : PendingRecord) (pending : Map PendingRecord)
    → text_eq id k ≡ false
    → DeliveredAt t k pending
    → DeliveredAt t k (Map.put id r pending)
put-DeliveredAt t k id r pending other (held, here, at) =
    (held, ground (arith, other, here, Map.get-put id k r pending), at)

delete-DeliveredAt :
    (t : ℕ) (k id : Text) (pending : Map PendingRecord)
    → text_eq id k ≡ false
    → DeliveredAt t k pending
    → DeliveredAt t k (Map.delete id pending)
delete-DeliveredAt t k id pending other (held, here, at) =
    (held, ground (arith, other, here, Map.get-delete id k pending), at)

module _ (consumer : Text) (min_idle_ms now : ℕ) where
  -- A claim of another id leaves the entry.
  claim_other :
      (t : ℕ) (k id : Text) (o : Option PendingRecord) (f : Option StreamEntry)
      (pending : Map PendingRecord)
      → text_eq id k ≡ false
      → DeliveredAt t k pending
      → DeliveredAt t k (claim_one consumer min_idle_ms now id o f pending).0
  unfolding claim_one
  claim_other t k id none f pending other h = h
  claim_other t k id (some held) none pending other h =
      elim (Bool-cases (is_idle now min_idle_ms held)) [
        | inl idle ↦ rw idle (delete-DeliveredAt t k id pending other h)
        | inr floor ↦ rw floor h
      ]
  claim_other t k id (some held) (some e) pending other h =
      elim (Bool-cases (is_idle now min_idle_ms held)) [
        | inl idle ↦
            let claimed : PendingRecord = record {
              consumer = consumer;
              delivered_at = now;
              delivery_count = suc held.delivery_count;
            } in
            rw idle (put-DeliveredAt t k id claimed pending other h)
        | inr floor ↦ rw floor h
      ]

  -- What is claimed is the entry that was found.
  claim_one-found :
      (id : Text) (o : Option PendingRecord) (f : Option StreamEntry) (pending : Map PendingRecord)
      (e : StreamEntry)
      → (claim_one consumer min_idle_ms now id o f pending).1 ≡ some e
      → (f ≡ some e) × DeliveredAt now id (claim_one consumer min_idle_ms now id o f pending).0
  unfolding claim_one
  claim_one-found id none f pending e h = absurd (ground (arith, h))
  claim_one-found id (some held) none pending e h = absurd (ground (arith, h))
  claim_one-found id (some held) (some g) pending e h =
      elim (Bool-cases (is_idle now min_idle_ms held)) [
        | inr floor ↦ absurd (ground (arith, h, floor))
        | inl idle ↦
            let claimed : PendingRecord = record {
              consumer = consumer;
              delivered_at = now;
              delivery_count = suc held.delivery_count;
            } in
            rw idle (
              ground (arith, h, idle),
              (claimed, ground (arith, Map.get-put id id claimed pending, text_eq_iff id id), refl),
            )
      ]

  -- A claim of the entry at the time of its last one leaves it with that time.
  claim_again :
      (k : Text) (o : Option PendingRecord) (e : StreamEntry) (pending : Map PendingRecord)
      → DeliveredAt now k pending
      → DeliveredAt now k (claim_one consumer min_idle_ms now k o (some e) pending).0
  unfolding claim_one
  claim_again k none e pending h = h
  claim_again k (some held) e pending h = elim (Bool-cases (is_idle now min_idle_ms held)) [
    | inr floor ↦ rw floor h
    | inl idle ↦
        let claimed : PendingRecord = record {
          consumer = consumer;
          delivered_at = now;
          delivery_count = suc held.delivery_count;
        } in
        rw idle (claimed, ground (arith, Map.get-put k k claimed pending, text_eq_iff k k), refl)
  ]

  -- Below the idle floor nothing is claimed.
  claim_below :
      (t : ℕ) (k : Text) (f : Option StreamEntry) (pending : Map PendingRecord)
      → now < t + min_idle_ms
      → DeliveredAt t k pending
      → claim_one consumer min_idle_ms now k (Map.get k pending) f pending ≡ (pending, none)
  unfolding claim_one
  claim_below t k none pending early (held, here, at) =
      let floor : is_idle now min_idle_ms held ≡ false = ground (arith, early, at) in
      rw (here, floor) refl
  claim_below t k (some e) pending early (held, here, at) =
      let floor : is_idle now min_idle_ms held ≡ false = ground (arith, early, at) in
      rw (here, floor) refl

  module _ (es : List StreamEntry) where
    claim_each-keeps :
        (k : Text) (e : StreamEntry) (ids : List Text) (pending : Map PendingRecord)
        → find_entry k es ≡ some e
        → DeliveredAt now k pending
        → DeliveredAt now k (claim_each consumer min_idle_ms now es ids pending).0
    unfolding claim_each
    claim_each-keeps k e [] pending found h = h
    claim_each-keeps k e (id ∷ ids) pending found h =
        let o = Map.get id pending in
        let next = claim_one consumer min_idle_ms now id o (find_entry id es) pending in
        claim_each-keeps k e ids next.0 found (elim (Bool-cases (text_eq id k)) [
          | inr other ↦ claim_other now k id o (find_entry id es) pending other h
          | inl same ↦
              let key : id ≡ k = (text_eq_iff id k).0 same in
              rw (key, found) (claim_again k (Map.get k pending) e pending h)
        ])

    -- Each claimed entry is pending from the time of the claim.
    pub claim_each-DeliveredAt :
        (ids : List Text) (pending : Map PendingRecord)
        → All
            (λ (e : StreamEntry).
              DeliveredAt now e.id (claim_each consumer min_idle_ms now es ids pending).0)
            (claim_each consumer min_idle_ms now es ids pending).1
    unfolding claim_each
    claim_each-DeliveredAt [] pending = tt
    claim_each-DeliveredAt (id ∷ ids) pending =
        let o = Map.get id pending in
        let next = claim_one consumer min_idle_ms now id o (find_entry id es) pending in
        let rest = claim_each-DeliveredAt ids next.0 in
        elim (Option-cases next.1) [
          | inl e ↦ rw e rest
          | inr (one, e) ↦
              let (found, at) = claim_one-found id o (find_entry id es) pending one e in
              let kept = claim_each-keeps id one ids next.0 found at in
              let key : one.id ≡ id = find_entry-id id es one found in rw e (rw key kept, rest)
        ]

    pub claim_each-refused :
        (t : ℕ) (k : Text) (ids : List Text) (pending : Map PendingRecord)
        → now < t + min_idle_ms
        → DeliveredAt t k pending
        → IsWithout k (claim_each consumer min_idle_ms now es ids pending).1
    unfolding claim_each
    claim_each-refused t k [] pending early h = tt
    claim_each-refused t k (id ∷ ids) pending early h =
        let o = Map.get id pending in
        let next = claim_one consumer min_idle_ms now id o (find_entry id es) pending in
        elim (Bool-cases (text_eq id k)) [
          | inl same ↦
              let key : id ≡ k = (text_eq_iff id k).0 same in
              let nothing : next ≡ (pending, none) =
                rw key (claim_below t k (find_entry k es) pending early h) in
              subst
                (λ r.
                  IsWithout k (cons_some r.1 (claim_each consumer min_idle_ms now es ids r.0).1))
                (sym nothing) (claim_each-refused t k ids pending early h)
          | inr other ↦
              let rest =
                claim_each-refused t k ids next.0 early
                  (claim_other t k id o (find_entry id es) pending other h) in
              elim (Option-cases next.1) [
                | inl e ↦ rw e rest
                | inr (one, e) ↦
                    let (found, at) = claim_one-found id o (find_entry id es) pending one e in
                    let key : one.id ≡ id = find_entry-id id es one found in
                    rw e ((λ same. ground (arith, other, text_eq_iff id k, sym key ∙ same)), rest)
              ]
        ]

-- No entry that one claim of a group hands out is handed out by a later claim below its idle floor.
pub claims_divide :
    (first second : Text) (min_first min_second now later : ℕ) (ids more_ids : List Text)
    (es more : List StreamEntry) (g : Group)
    → later < now + min_second
    → All
        (λ (e : StreamEntry).
          IsWithout e.id
            (claim_in_group second min_second more_ids later more
              (claim_in_group first min_first ids now es g).0).1)
        (claim_in_group first min_first ids now es g).1
unfolding claim_in_group
claims_divide first second min_first min_second now later ids more_ids es more g early =
    let r = claim_each first min_first now es ids g.pending in
    All-mono (λ (e : StreamEntry). DeliveredAt now e.id r.0)
      (λ (e : StreamEntry). IsWithout e.id (claim_each second min_second later more more_ids r.0).1)
      r.1 (λ e at. claim_each-refused second min_second later more now e.id more_ids r.0 early at)
      (claim_each-DeliveredAt first min_first now es ids g.pending)
