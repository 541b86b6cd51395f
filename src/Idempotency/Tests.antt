-- ===== src/Idempotency/Tests.antt =====
-- The idempotency store at concrete inputs. A response is its status code.
use boilerplate_express_ts.Prelude.{
  ℕ, ◌≡◌, refl, false, [], ◌∷◌, codes, print, text_eq, arith, if◌then◌else◌,
}
use boilerplate_express_ts.Prelude.Map.{get, put}
use boilerplate_express_ts.Idempotency.{
  Store, ClaimRequest, IdempotencyClaim, ClaimResult, replay, mismatch, record_key, claim, complete,
  release, owned_record, fresh_record,
}
use boilerplate_express_ts.Idempotency.Records.{Event, claims, purges, run}
use boilerplate_express_ts.Idempotency.Replay.{
  complete_replays, claim_excludes, superseded_settles_nothing,
}

abbrev blank : Store ℕ
blank = record { records = []; retention_ms = 1000; lease_ms = 100 }

abbrev payment : ClaimRequest
payment = record { scope = codes "u1"; key = codes "k1"; fingerprint = codes "f" }

abbrev first_claim : IdempotencyClaim
first_claim = record { scope = codes "u1"; key = codes "k1"; claim_id = codes "c1" }

-- At time 10 the first request claims its key.
abbrev claimed_once : Store ℕ
claimed_once = record blank {
  records = (codes "2:u1k1", fresh_record payment (codes "c1") 10 blank) ∷ [];
}

claimed_once_built : (claim payment (codes "c1") 10 blank).0 ≡ claimed_once
unfolding claim get put record_key print
claimed_once_built = refl

abbrev retry : Event ℕ
retry = claims payment (codes "c2") 60

complete_replays_example :
    claim payment (codes "c3") 900 (run (complete first_claim 201 50 claimed_once).0 (retry ∷ []))
    ≡ (
      run (complete first_claim 201 50 claimed_once).0 (retry ∷ []),
      (if text_eq (codes "f") (codes "f") then replay 201 else mismatch),
    )
unfolding owned_record get record_key print text_eq
complete_replays_example =
    complete_replays claimed_once first_claim (fresh_record payment (codes "c1") 10 blank) 201 50
      (retry ∷ []) (codes "f") (codes "c3") 900 refl (omega arith) (omega arith)

claim_excludes_example :
    claim payment (codes "c3") 109 (run (claim payment (codes "c1") 10 blank).0 (retry ∷ [])) ≡ (
      run (claim payment (codes "c1") 10 blank).0 (retry ∷ []),
      (if text_eq (codes "f") (codes "f") then ClaimResult.in_progress else mismatch),
    )
unfolding claim get
claim_excludes_example =
    claim_excludes blank payment (codes "c1") 10 first_claim (retry ∷ []) (codes "f") (codes "c3")
      109 refl (omega arith) (omega arith) (omega arith)

-- The claim `c1` is taken over by `c2` once its lease has passed.
abbrev takeover : Store ℕ
takeover = (claim payment (codes "c2") 200 claimed_once).0

superseded_example :
    (complete first_claim 500 250 (run takeover (purges 210 ∷ []))
      ≡ (run takeover (purges 210 ∷ []), false))
    × (release first_claim (run takeover (purges 210 ∷ []))
        ≡ (run takeover (purges 210 ∷ []), false))
unfolding claim get record_key print text_eq
superseded_example =
    superseded_settles_nothing claimed_once payment (codes "c2") 200
      (record first_claim { claim_id = codes "c2" }) first_claim (purges 210 ∷ []) 500 250 refl
      (omega arith, tt) refl refl (λ e. ground (arith, e))
