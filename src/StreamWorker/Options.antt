-- ===== src/StreamWorker/Options.antt =====
-- src/redis/stream.worker.ts: the options of a worker, with numbers that are whole and not negative.
use boilerplate_express_ts.Prelude.{
  ℕ, zero, suc, Bool, true, false, Option, none, some, List, [], ◌∷◌, leb, if◌then◌else◌, Text,
  codes,
}
use boilerplate_express_ts.StreamWorker.{ResolvedOptions}

pub record StreamWorkerOptions : Type 0 where
  pub key : Text
  pub group : Text
  pub consumer : Text
  pub batch_size : Option ℕ
  pub block_ms : Option ℕ
  pub handler_timeout_ms : Option ℕ
  pub min_idle_ms : Option ℕ
  pub max_deliveries : Option ℕ
  pub claim_batch_size : Option ℕ
  pub reclaim_interval_ms : Option ℕ
  pub error_backoff_ms : Option ℕ
  pub max_error_backoff_ms : Option ℕ

-- The `RangeError`s.
pub data OptionError : Type 0 where
  is_empty : Text → OptionError
  not_positive : Text → OptionError
  idle_floor : OptionError

pub data Resolution : Type 0 where
  resolved : ResolvedOptions → Resolution
  refused : OptionError → Resolution

-- `??`.
abbrev pub or_default : Option ℕ → ℕ → ℕ
or_default none d = d
or_default (some n) d = n

unfoldable pub with_defaults : StreamWorkerOptions → ResolvedOptions
with_defaults o = record {
  key = o.key;
  group = o.group;
  consumer = o.consumer;
  batch_size = or_default o.batch_size 16;
  block_ms = or_default o.block_ms 2000;
  handler_timeout_ms = or_default o.handler_timeout_ms 10000;
  min_idle_ms = or_default o.min_idle_ms 30000;
  max_deliveries = or_default o.max_deliveries 5;
  claim_batch_size = or_default o.claim_batch_size 16;
  reclaim_interval_ms = or_default o.reclaim_interval_ms 5000;
  error_backoff_ms = or_default o.error_backoff_ms 500;
  max_error_backoff_ms = or_default o.max_error_backoff_ms 30000;
}

-- What is refused when it is empty, and when it is not positive: `requirePositiveInteger`.
pub data Check : Type 0 where
  text : Text → Text → Check
  positive : Text → ℕ → Check

abbrev pub passes : Check → Bool
passes (text name []) = false
passes (text name (x ∷ t)) = true
passes (positive name zero) = false
passes (positive name (suc n)) = true

abbrev pub error_of : Check → OptionError
error_of (text name t) = is_empty name
error_of (positive name n) = not_positive name

-- The checks in their order, and what comes after the last.
unfoldable pub check_each : List Check → Resolution → Resolution
check_each [] last = last
check_each (c ∷ cs) last =
    let rest = check_each cs last in if passes c then rest else refused (error_of c)

abbrev pub checks_of : ResolvedOptions → List Check
checks_of r =
    text (codes "key") r.key
    ∷ text (codes "group") r.group
    ∷ text (codes "consumer") r.consumer
    ∷ positive (codes "batchSize") r.batch_size
    ∷ positive (codes "blockMs") r.block_ms
    ∷ positive (codes "handlerTimeoutMs") r.handler_timeout_ms
    ∷ positive (codes "minIdleMs") r.min_idle_ms
    ∷ positive (codes "maxDeliveries") r.max_deliveries
    ∷ positive (codes "claimBatchSize") r.claim_batch_size
    ∷ positive (codes "reclaimIntervalMs") r.reclaim_interval_ms
    ∷ positive (codes "errorBackoffMs") r.error_backoff_ms
    ∷ positive (codes "maxErrorBackoffMs") r.max_error_backoff_ms
    ∷ []

unfoldable pub check_options : ResolvedOptions → Resolution
unfolding check_each
check_options r =
    check_each (checks_of r)
      (if leb r.min_idle_ms r.handler_timeout_ms then refused idle_floor else resolved r)

unfoldable pub resolve_options : StreamWorkerOptions → Resolution
unfolding with_defaults check_options
resolve_options o = check_options (with_defaults o)
