-- ===== src/Idempotency.antt =====
-- src/idempotency/memory.store.ts: the in-memory store of idempotency keys. The clock's reading and
-- the random claim id are arguments; a response is opaque.
pub mod Key
pub mod Records
pub mod Replay
mod Tests
use boilerplate_express_ts.Prelude.{
  ℕ, zero, suc, ◌+◌, Bool, true, false, not, ◌&&◌, ◌||◌, Option, none, some, List, [], ◌∷◌, ◌++◌,
  ltb, leb, ◌==◌, if◌then◌else◌, length, Text, text_eq, print,
}
use boilerplate_express_ts.Prelude.Map
use boilerplate_express_ts.Prelude.Map.{Map}

pub data IdempotencyState : Type 0 where
  in_progress completed : IdempotencyState

abbrev pub is_in_progress : IdempotencyState → Bool
is_in_progress IdempotencyState.in_progress = true
is_in_progress completed = false

pub record ClaimRequest : Type 0 where
  pub scope : Text
  pub key : Text
  pub fingerprint : Text

pub record IdempotencyClaim : Type 0 where
  pub scope : Text
  pub key : Text
  pub claim_id : Text

pub data ClaimResult (R : Type 0) : Type 0 where
  claimed : IdempotencyClaim → ClaimResult R
  replay : R → ClaimResult R
  in_progress mismatch : ClaimResult R

pub record StoredRecord (R : Type 0) : Type 0 where
  pub claim_id : Text
  pub fingerprint : Text
  pub state : IdempotencyState
  pub response : Option R
  pub claimed_at : ℕ
  pub expires_at : ℕ

pub record Store (R : Type 0) : Type 0 where
  pub records : Map (StoredRecord R)
  pub retention_ms : ℕ
  pub lease_ms : ℕ

-- `none` is a `RangeError` of the constructor.
unfoldable pub create : {R : Type 0} → ℕ → ℕ → Option (Store R)
create retention_ms lease_ms =
    if retention_ms == 0 || lease_ms == 0
    then none
    else some (record { records = []; retention_ms = retention_ms; lease_ms = lease_ms })

unfoldable pub record_key : Text → Text → Text
record_key scope key = print (length scope) ++ (b':' ∷ (scope ++ key))

module _ {R : Type 0} where
  abbrev pub is_dead : Store R → StoredRecord R → ℕ → Bool
  is_dead s r now =
      leb r.expires_at now || (is_in_progress r.state && leb (r.claimed_at + s.lease_ms) now)

  abbrev pub fresh_record : ClaimRequest → Text → ℕ → Store R → StoredRecord R
  fresh_record q claim_id now s = record {
    claim_id = claim_id;
    fingerprint = q.fingerprint;
    state = IdempotencyState.in_progress;
    response = none;
    claimed_at = now;
    expires_at = now + s.retention_ms;
  }

  -- A record that is missing or dead is replaced by a fresh claim.
  fresh_claim : ClaimRequest → Text → ℕ → Store R → Store R × ClaimResult R
  fresh_claim q claim_id now s = (
    record s {
      records = Map.put (record_key q.scope q.key) (fresh_record q claim_id now s) s.records;
    },
    claimed (record { scope = q.scope; key = q.key; claim_id = claim_id }),
  )

  abbrev answer_of : StoredRecord R → ClaimResult R
  answer_of r = elim r.state [
    | IdempotencyState.in_progress ↦ ClaimResult.in_progress
    | completed ↦ elim r.response [
      | none ↦ ClaimResult.in_progress
      | some response ↦ replay response
    ]
  ]

  unfoldable pub claim : ClaimRequest → Text → ℕ → Store R → Store R × ClaimResult R
  unfolding fresh_claim
  claim q claim_id now s = elim (Map.get (record_key q.scope q.key) s.records) [
    | none ↦ fresh_claim q claim_id now s
    | some r ↦
        if is_dead s r now
        then fresh_claim q claim_id now s
        else if not (text_eq r.fingerprint q.fingerprint)
        then (s, mismatch)
        else (s, answer_of r)
  ]

  -- The record of a claim that still owns its key and is in progress.
  unfoldable pub owned_record : IdempotencyClaim → Store R → Option (StoredRecord R)
  owned_record c s = elim (Map.get (record_key c.scope c.key) s.records) [
    | none ↦ none
    | some r ↦
        if not (text_eq r.claim_id c.claim_id)
        then none
        else if not (is_in_progress r.state)
        then none
        else some r
  ]

  unfoldable pub complete : IdempotencyClaim → R → ℕ → Store R → Store R × Bool
  complete c response now s = elim (owned_record c s) [
    | none ↦ (s, false)
    | some r ↦ (
      record s {
        records =
            Map.put (record_key c.scope c.key)
              (record r {
                state = completed;
                response = some response;
                expires_at = now + s.retention_ms;
              })
              s.records;
      },
      true,
    )
  ]

  unfoldable pub release : IdempotencyClaim → Store R → Store R × Bool
  release c s = elim (owned_record c s) [
    | none ↦ (s, false)
    | some r ↦ (record s { records = Map.delete (record_key c.scope c.key) s.records }, true)
  ]

  abbrev is_expired : ℕ → StoredRecord R → Bool
  is_expired now r = leb r.expires_at now

  unfoldable pub purge_expired : ℕ → Store R → Store R × ℕ
  purge_expired now s = (
    record s { records = Map.delete_if (is_expired now) s.records },
    Map.count_if (is_expired now) s.records,
  )

  unfoldable pub size : ℕ → Store R → ℕ
  size now s = Map.count_if (λ r. ltb now r.expires_at) s.records

  unfoldable pub clear : Store R → Store R
  clear s = record s { records = [] }
