-- ===== src/StreamWorker/Bounds.antt =====
-- src/redis/stream.worker.ts: the options that a worker accepts.
use boilerplate_express_ts.Prelude.{
  ℕ, zero, suc, ◌≡◌, ◌≢◌, ◌<◌, true, List, [], ◌∷◌, leb, codes, if◌then◌else◌, Text, All, inl, inr,
  arith, Bool-cases,
}
use boilerplate_express_ts.StreamWorker.{ResolvedOptions}
use boilerplate_express_ts.StreamWorker.Options.{
  StreamWorkerOptions, Resolution, resolved, refused, Check, text, positive, passes, check_each,
  checks_of, idle_floor, with_defaults, check_options, resolve_options,
}

abbrev pub IsResolved : (ResolvedOptions → Type 0) → Resolution → Type 0
IsResolved P (resolved r) = P r
IsResolved P (refused e) = Unit

-- No name is empty and no number is zero, and an entry becomes claimable only after its handler had to end.
pub record IsValid (r : ResolvedOptions) : Type 0 where
  pub named : (r.key ≢ []) × ((r.group ≢ []) × (r.consumer ≢ []))
  pub reads : (0 < r.batch_size) × (0 < r.block_ms)
  pub claims : (0 < r.claim_batch_size) × (0 < r.reclaim_interval_ms)
  pub times_out : 0 < r.handler_timeout_ms
  pub tries : 0 < r.max_deliveries
  pub waits : (0 < r.error_backoff_ms) × (0 < r.max_error_backoff_ms)
  pub floor : r.handler_timeout_ms < r.min_idle_ms

floor-IsResolved :
    (P : ResolvedOptions → Type 0) (r : ResolvedOptions)
    → (r.handler_timeout_ms < r.min_idle_ms → P r)
    → IsResolved P
        (if leb r.min_idle_ms r.handler_timeout_ms then refused idle_floor else resolved r)
floor-IsResolved P r h = elim (Bool-cases (leb r.min_idle_ms r.handler_timeout_ms)) [
  | inl low ↦ rw low tt
  | inr high ↦ rw high (h (ground (arith, high)))
]

check_each-IsResolved :
    (P : ResolvedOptions → Type 0) (cs : List Check) (last : Resolution)
    → (All (λ c. passes c ≡ true) cs → IsResolved P last)
    → IsResolved P (check_each cs last)
unfolding check_each
check_each-IsResolved P [] last h = h tt
check_each-IsResolved P (c ∷ cs) last h = elim (Bool-cases (passes c)) [
  | inl pass ↦ rw pass (check_each-IsResolved P cs last (λ all. h (pass, all)))
  | inr fail ↦ rw fail tt
]

text_passes : (name t : Text) → passes (text name t) ≡ true → t ≢ []
text_passes name [] e bad = ground (arith, e)
text_passes name (x ∷ t) e bad = cc

positive_passes : (name : Text) (n : ℕ) → passes (positive name n) ≡ true → 0 < n
positive_passes name zero e = ground (arith, e)
positive_passes name (suc n) e = omega arith

-- What the checks establish, besides the floor.
checks_of-IsValid :
    (r : ResolvedOptions)
    → All (λ c. passes c ≡ true) (checks_of r)
    → r.handler_timeout_ms < r.min_idle_ms
    → IsValid r
checks_of-IsValid r
      (
        k,
        (g, (c, (batch, (block, (timeout, (idle, (tries, (claim, (due, (base, (top, done))))))))))),
      )
      floor =
    record {
      named = (
        text_passes (codes "key") r.key k,
        (text_passes (codes "group") r.group g, text_passes (codes "consumer") r.consumer c),
      );
      reads = (
        positive_passes (codes "batchSize") r.batch_size batch,
        positive_passes (codes "blockMs") r.block_ms block,
      );
      claims = (
        positive_passes (codes "claimBatchSize") r.claim_batch_size claim,
        positive_passes (codes "reclaimIntervalMs") r.reclaim_interval_ms due,
      );
      times_out = positive_passes (codes "handlerTimeoutMs") r.handler_timeout_ms timeout;
      tries = positive_passes (codes "maxDeliveries") r.max_deliveries tries;
      waits = (
        positive_passes (codes "errorBackoffMs") r.error_backoff_ms base,
        positive_passes (codes "maxErrorBackoffMs") r.max_error_backoff_ms top,
      );
      floor = floor;
    }

-- The options that a worker is made with have names that are not empty and numbers that are not zero, and
-- an entry becomes claimable only later than its handler is given up.
pub resolve_options-IsValid : (o : StreamWorkerOptions) → IsResolved IsValid (resolve_options o)
unfolding resolve_options check_options
resolve_options-IsValid o =
    let r = with_defaults o in
    check_each-IsResolved IsValid (checks_of r)
      (if leb r.min_idle_ms r.handler_timeout_ms then refused idle_floor else resolved r)
      (λ all. floor-IsResolved IsValid r (λ floor. checks_of-IsValid r all floor))
