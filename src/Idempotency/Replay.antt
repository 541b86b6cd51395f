-- ===== src/Idempotency/Replay.antt =====
-- src/idempotency/memory.store.ts over a history of calls: a recorded response, and a claim in progress.
use boilerplate_express_ts.Prelude.{
  ℕ, ◌+◌, ◌<◌, ◌≡◌, ◌≢◌, refl, sym, subst, ◌∙◌, inl, inr, true, false, some, List, [], ◌∷◌, All,
  Text, text_eq, text_eq_refl, if◌then◌else◌, arith,
}
use boilerplate_express_ts.Prelude.Map.{get-put}
use boilerplate_express_ts.Idempotency.{
  completed, is_in_progress, ClaimRequest, IdempotencyClaim, ClaimResult, claimed, replay, mismatch,
  StoredRecord, Store, record_key, claim, owned_record, complete, release, fresh_record,
}
use boilerplate_express_ts.Idempotency.Records.{
  Event, claims, completes, releases, purges, run, IsPowerless, Spares, Holds, owned_record-none,
  run-Holds,
}

module _ {R : Type 0} where
  -- What is answered to a request that finds the record of a completed claim.
  abbrev pub replayed : StoredRecord R → R → ClaimRequest → ClaimResult R
  replayed r response q = if text_eq r.fingerprint q.fingerprint then replay response else mismatch

  claim_completed :
      (s : Store R) (r : StoredRecord R) (q : ClaimRequest) (claim_id : Text) (now : ℕ)
      (response : R)
      → Holds (record_key q.scope q.key) r s
      → r.state ≡ completed
      → r.response ≡ some response
      → now < r.expires_at
      → claim q claim_id now s ≡ (s, replayed r response q)
  unfolding claim
  claim_completed s r q claim_id now response h done said early = ground arith

  -- The events up to a time: claims and purges read the clock before it.
  abbrev pub IsBefore : ℕ → Event R → Type 0
  IsBefore t (claims q claim_id now) = now < t
  IsBefore t (completes c response now) = Unit
  IsBefore t (releases c) = Unit
  IsBefore t (purges now) = now < t

  Spares-completed :
      (lease : ℕ) (r : StoredRecord R) (es : List (Event R))
      → r.state ≡ completed
      → All (IsBefore r.expires_at) es
      → All (Spares lease r) es
  Spares-completed lease r [] done h = tt
  Spares-completed lease r (claims q claim_id now ∷ es) done h =
      ((h.0, inl done), Spares-completed lease r es done h.1)
  Spares-completed lease r (completes c response now ∷ es) done h =
      (inr done, Spares-completed lease r es done h.1)
  Spares-completed lease r (releases c ∷ es) done h =
      (inr done, Spares-completed lease r es done h.1)
  Spares-completed lease r (purges now ∷ es) done h = (h.0, Spares-completed lease r es done h.1)

  complete_owned :
      (s : Store R) (c : IdempotencyClaim) (r : StoredRecord R) (response : R) (now : ℕ)
      → owned_record c s ≡ some r
      → Holds
          (record_key c.scope c.key)
          (record r {
            state = completed;
            response = some response;
            expires_at = now + s.retention_ms;
          })
          (complete c response now s).0
  unfolding complete
  complete_owned s c r response now e =
      rw (e, complete)
        (get-put (record_key c.scope c.key) (record_key c.scope c.key) _ s.records
          ∙ rw (text_eq_refl (record_key c.scope c.key)) refl)

  -- A claim that still owns its key completes at `at`. Whatever calls follow before `at` plus the
  -- retention, on this key or others, a request for the same scope and key before then changes
  -- nothing: it gets the recorded response if it has the claim's fingerprint, and a mismatch if not.
  pub complete_replays :
      (s : Store R) (c : IdempotencyClaim) (r : StoredRecord R) (response : R) (at : ℕ)
      → (es : List (Event R)) (fingerprint claim_id : Text) (now : ℕ) → owned_record c s ≡ some r
      → All (IsBefore (at + s.retention_ms)) es
      → now < at + s.retention_ms
      → let u = run (complete c response at s).0 es in
        let q : ClaimRequest = record { scope = c.scope; key = c.key; fingerprint = fingerprint } in
        claim q claim_id now u
        ≡ (u, (if text_eq r.fingerprint fingerprint then replay response else mismatch))
  complete_replays s c r response at es fingerprint claim_id now owned early soon =
      let r' : StoredRecord R = record r {
        state = completed;
        response = some response;
        expires_at = at + s.retention_ms;
      } in
      let s' = (complete c response at s).0 in
      let held =
        (run-Holds (record_key c.scope c.key) r' es s'
          (Spares-completed s'.lease_ms r' es refl early)
          (complete_owned s c r response at owned)).0 in
      claim_completed (run s' es) r'
        (record { scope = c.scope; key = c.key; fingerprint = fingerprint }) claim_id now response
        held refl refl soon

  -- Events that leave the claim `id`, taken at `t`, alone: the clock is within its lease and its
  -- retention, and no completion or release carries its id.
  abbrev pub LeavesAlone : ℕ → ℕ → Text → Event R → Type 0
  LeavesAlone lease_end expiry id (claims q claim_id now) = (now < expiry) × (now < lease_end)
  LeavesAlone lease_end expiry id (completes c response now) = c.claim_id ≢ id
  LeavesAlone lease_end expiry id (releases c) = c.claim_id ≢ id
  LeavesAlone lease_end expiry id (purges now) = now < expiry

  Spares-alone :
      (lease : ℕ) (r : StoredRecord R) (es : List (Event R))
      → All (LeavesAlone (r.claimed_at + lease) r.expires_at r.claim_id) es
      → All (Spares lease r) es
  Spares-alone lease r [] h = tt
  Spares-alone lease r (claims q claim_id now ∷ es) h =
      ((h.0.0, inr h.0.1), Spares-alone lease r es h.1)
  Spares-alone lease r (completes c response now ∷ es) h = (inl h.0, Spares-alone lease r es h.1)
  Spares-alone lease r (releases c ∷ es) h = (inl h.0, Spares-alone lease r es h.1)
  Spares-alone lease r (purges now ∷ es) h = (h.0, Spares-alone lease r es h.1)

  claim_granted :
      (s : Store R) (q : ClaimRequest) (id : Text) (t : ℕ) (c : IdempotencyClaim)
      → (claim q id t s).1 ≡ claimed c
      → Holds (record_key q.scope q.key) (fresh_record q id t s) (claim q id t s).0
        × ((claim q id t s).0.lease_ms ≡ s.lease_ms)
  unfolding claim
  claim_granted s q id t c e = ground (
    arith,
    get-put (record_key q.scope q.key) (record_key q.scope q.key) (fresh_record q id t s) s.records,
    text_eq_refl (record_key q.scope q.key),
  )

  claim_held :
      (s : Store R) (r : StoredRecord R) (q : ClaimRequest) (claim_id : Text) (now : ℕ)
      → Holds (record_key q.scope q.key) r s
      → is_in_progress r.state ≡ true
      → now < r.expires_at
      → now < r.claimed_at + s.lease_ms
      → claim q claim_id now s
        ≡ (s, (if text_eq r.fingerprint q.fingerprint then ClaimResult.in_progress else mismatch))
  unfolding claim
  claim_held s r q claim_id now h busy early leased = ground arith

  -- A claim is granted at `t`. Whatever calls follow within its lease and its retention, as long as
  -- nobody completes or releases it, every further request for the same scope and key in that time
  -- changes nothing and is refused: in progress for the same fingerprint, a mismatch otherwise.
  pub claim_excludes :
      (s : Store R) (q : ClaimRequest) (id : Text) (t : ℕ) (c : IdempotencyClaim)
      → (es : List (Event R)) (fingerprint claim_id : Text) (now : ℕ)
      → (claim q id t s).1 ≡ claimed c
      → All (LeavesAlone (t + s.lease_ms) (t + s.retention_ms) id) es
      → now < t + s.lease_ms
      → now < t + s.retention_ms
      → let u = run (claim q id t s).0 es in
        claim (record q { fingerprint = fingerprint }) claim_id now u
        ≡ (u, (if text_eq q.fingerprint fingerprint then ClaimResult.in_progress else mismatch))
  claim_excludes s q id t c es fingerprint claim_id now granted alone leased kept =
      let r = fresh_record q id t s in
      let s' = (claim q id t s).0 in
      let (here, same) = claim_granted s q id t c granted in
      let (held, still) =
        run-Holds (record_key q.scope q.key) r es s'
          (subst (λ (l : ℕ). All (Spares l r) es) (sym same) (Spares-alone s.lease_ms r es alone))
          here in
      claim_held (run s' es) r (record q { fingerprint = fingerprint }) claim_id now held refl kept
        (omega (arith, still, same))

  -- A claim that is not the one of the record, or whose request was completed, settles nothing.
  settle_powerless :
      (s : Store R) (r : StoredRecord R) (c : IdempotencyClaim) (response : R) (now : ℕ)
      → Holds (record_key c.scope c.key) r s
      → IsPowerless r c
      → (complete c response now s ≡ (s, false)) × (release c s ≡ (s, false))
  settle_powerless s r c response now h weak =
      let gone =
        owned_record-none (record_key c.scope c.key) r s c weak h
          (text_eq_refl (record_key c.scope c.key)) in
      (unfold complete in rw (gone, complete) refl, unfold release in rw (gone, release) refl)

  -- A request's key was claimed by another claim, say once its own lease had passed. Whatever calls follow
  -- within the lease and the retention of the new claim, as long as nobody settles that one, the old claim
  -- can neither record its response nor free the key: both report false and change nothing.
  pub superseded_settles_nothing :
      (s : Store R) (q : ClaimRequest) (id : Text) (t : ℕ) (c old : IdempotencyClaim)
      (es : List (Event R)) (response : R) (now : ℕ)
      → (claim q id t s).1 ≡ claimed c
      → All (LeavesAlone (t + s.lease_ms) (t + s.retention_ms) id) es
      → old.scope ≡ q.scope
      → old.key ≡ q.key
      → old.claim_id ≢ id
      → let u = run (claim q id t s).0 es in
        (complete old response now u ≡ (u, false)) × (release old u ≡ (u, false))
  superseded_settles_nothing s q id t c old es response now granted alone same_scope same_key
        other =
      let r = fresh_record q id t s in
      let s' = (claim q id t s).0 in
      let (here, same) = claim_granted s q id t c granted in
      let (held, still) =
        run-Holds (record_key q.scope q.key) r es s'
          (subst (λ (l : ℕ). All (Spares l r) es) (sym same) (Spares-alone s.lease_ms r es alone))
          here in
      settle_powerless (run s' es) r old response now
        (subst (λ k. Holds k r (run s' es)) (cc (same_scope, same_key)) held) (inl other)
