-- ===== src/Idempotency/Records.antt =====
-- src/idempotency/memory.store.ts over a history of calls: which events leave a record alone.
use boilerplate_express_ts.Prelude.{
  ℕ, ◌+◌, ◌<◌, ◌≡◌, ◌≢◌, ◌⊎◌, refl, sym, subst, ◌∙◌, inl, inr, true, none, some, List, [], ◌∷◌, All,
  Text, text_eq, text_eq_iff, arith, Bool-cases, Option-cases,
}
use boilerplate_express_ts.Prelude.Map
use boilerplate_express_ts.Prelude.Map.{get-put, get-delete, get-delete_if_kept}
use boilerplate_express_ts.Idempotency.{
  completed, ClaimRequest, IdempotencyClaim, StoredRecord, Store, record_key, claim, owned_record,
  complete, release, purge_expired, fresh_record, is_expired,
}

-- `clear`, which the source keeps for its tests, is no event.
pub data Event (R : Type 0) : Type 0 where
  claims : ClaimRequest → (claim_id : Text) → (now : ℕ) → Event R
  completes : IdempotencyClaim → R → (now : ℕ) → Event R
  releases : IdempotencyClaim → Event R
  purges : (now : ℕ) → Event R

module _ {R : Type 0} where
  unfoldable pub step : Store R → Event R → Store R
  step s (claims q claim_id now) = (claim q claim_id now s).0
  step s (completes c response now) = (complete c response now s).0
  step s (releases c) = (release c s).0
  step s (purges now) = (purge_expired now s).0

  unfoldable pub run : Store R → List (Event R) → Store R
  run s [] = s
  run s (e ∷ es) = run (step s e) es

  -- A claim that is not the one of the record, or comes after its completion.
  abbrev pub IsPowerless : StoredRecord R → IdempotencyClaim → Type 0
  IsPowerless r c = (c.claim_id ≢ r.claim_id) ⊎ (r.state ≡ completed)

  -- The event comes while the record lives, and no live claim of the record is settled by it.
  abbrev pub Spares : ℕ → StoredRecord R → Event R → Type 0
  Spares lease_ms r (claims q claim_id now) =
      (now < r.expires_at) × ((r.state ≡ completed) ⊎ (now < r.claimed_at + lease_ms))
  Spares lease_ms r (completes c response now) = IsPowerless r c
  Spares lease_ms r (releases c) = IsPowerless r c
  Spares lease_ms r (purges now) = now < r.expires_at

  abbrev pub Holds : Text → StoredRecord R → Store R → Type 0
  Holds k r s = Map.get k s.records ≡ some r

  pub step-lease : (s : Store R) (e : Event R) → (step s e).lease_ms ≡ s.lease_ms
  unfolding step claim complete release purge_expired
  step-lease s (claims q claim_id now) = ground arith
  step-lease s (completes c response now) = ground arith
  step-lease s (releases c) = ground arith
  step-lease s (purges now) = refl

  claim-Holds :
      (k : Text) (r : StoredRecord R) (s : Store R) (q : ClaimRequest) (claim_id : Text) (now : ℕ)
      → Spares s.lease_ms r (claims q claim_id now)
      → Holds k r s
      → Holds k r (claim q claim_id now s).0
  unfolding claim
  claim-Holds k r s q claim_id now spares h =
      let key = record_key q.scope q.key in
      ground (arith, text_eq_iff key k, get-put key k (fresh_record q claim_id now s) s.records)

  pub owned_record-none :
      (k : Text) (r : StoredRecord R) (s : Store R) (c : IdempotencyClaim)
      → IsPowerless r c
      → Holds k r s
      → text_eq (record_key c.scope c.key) k ≡ true
      → owned_record c s ≡ none
  unfolding owned_record
  owned_record-none k r s c spares h same =
      ground (arith, text_eq_iff (record_key c.scope c.key) k, text_eq_iff r.claim_id c.claim_id)

  complete-Holds :
      (k : Text) (r : StoredRecord R) (s : Store R) (c : IdempotencyClaim) (response : R) (now : ℕ)
      → IsPowerless r c
      → Holds k r s
      → Holds k r (complete c response now s).0
  unfolding complete
  complete-Holds k r s c response now spares h =
      let key = record_key c.scope c.key in
      elim (Bool-cases (text_eq key k)) [
        | inl same ↦ rw (owned_record-none k r s c spares h same, complete) h
        | inr other ↦ elim (Option-cases (owned_record c s)) [
          | inl e ↦ rw (e, complete) h
          | inr (r', e) ↦ rw (e, complete) (rw (get-put key k _ s.records, other) h)
        ]
      ]

  release-Holds :
      (k : Text) (r : StoredRecord R) (s : Store R) (c : IdempotencyClaim)
      → IsPowerless r c
      → Holds k r s
      → Holds k r (release c s).0
  unfolding release
  release-Holds k r s c spares h =
      let key = record_key c.scope c.key in
      elim (Bool-cases (text_eq key k)) [
        | inl same ↦ rw (owned_record-none k r s c spares h same, release) h
        | inr other ↦ elim (Option-cases (owned_record c s)) [
          | inl e ↦ rw (e, release) h
          | inr (r', e) ↦ rw (e, release) (rw (get-delete key k s.records, other) h)
        ]
      ]

  step-Holds :
      (k : Text) (r : StoredRecord R) (s : Store R) (e : Event R)
      → Spares s.lease_ms r e
      → Holds k r s
      → Holds k r (step s e)
  unfolding step purge_expired
  step-Holds k r s (claims q claim_id now) spares h = claim-Holds k r s q claim_id now spares h
  step-Holds k r s (completes c response now) spares h =
      complete-Holds k r s c response now spares h
  step-Holds k r s (releases c) spares h = release-Holds k r s c spares h
  step-Holds k r s (purges now) spares h =
      get-delete_if_kept (is_expired now) k r s.records h (ground arith)

  -- A record stays as it is through every event that spares it.
  pub run-Holds :
      (k : Text) (r : StoredRecord R) (es : List (Event R)) (s : Store R)
      → All (Spares s.lease_ms r) es
      → Holds k r s
      → Holds k r (run s es) × ((run s es).lease_ms ≡ s.lease_ms)
  unfolding run
  run-Holds k r [] s spares h = (h, refl)
  run-Holds k r (e ∷ es) s spares h =
      let same = step-lease s e in
      let (held, kept) =
        run-Holds k r es (step s e) (subst (λ (l : ℕ). All (Spares l r) es) (sym same) spares.1)
          (step-Holds k r s e spares.0 h) in
      (held, kept ∙ same)
