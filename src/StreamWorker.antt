-- ===== src/StreamWorker.antt =====
-- src/redis/stream.worker.ts: what a worker over a consumer group calls and keeps. The state of the server, of the
-- handler and of the parking lot is one `S`; the commands are an interface, and what they answer may be an
-- error. `handed` and `settled` are the trace of a run: the entries that reads handed out, and those whose
-- handler was fulfilled in time or that were parked. The reports to `onOutcome` and `onError` are left out.
mod Options
mod Ticks
mod Bounds
mod Loop
mod Counts
mod Ceiling
mod Triples
mod Laws
mod Accounts
mod Passes
mod Runs
mod Memory
mod Outstanding
mod Redelivery
mod Tests
use boilerplate_express_ts.Prelude.{
  ℕ, zero, suc, ◌+◌, ◌++◌, Bool, true, false, Option, none, some, List, [], ◌∷◌, map, leb, ltb,
  if◌then◌else◌, length, Text,
}
use boilerplate_express_ts.Prelude.Map
use boilerplate_express_ts.Prelude.Map.{Map}
use boilerplate_express_ts.StreamGroup.{StreamEntry, PendingEntry}
use boilerplate_express_ts.StreamMemory.{Created}
use boilerplate_express_ts.StreamEnvelope.{Libraries, StreamEventEnvelope, decode_envelope}

-- `isNoGroupError`, or any other error, in `describeFailure`'s form.
pub data Failure : Type 0 where
  no_group : Failure
  other : Text → Failure

pub data Reply (A : Type 0) : Type 0 where
  ok : A → Reply A
  error : Failure → Reply A

-- The worker calls all of them but `append`, which is the producers'.
pub record StreamCommands (S : Type 0) : Type 0 where
  pub create_group : Text → Text → Bool → Bool → S → S × Reply Created
  pub append : Text → Map Text → Option ℕ → S → S × Reply Text
  pub read_group : Text → Text → Text → ℕ → ℕ → S → S × Reply (List StreamEntry)
  pub ack : Text → Text → List Text → S → S × Reply ℕ
  pub pending_entries : Text → Text → ℕ → ℕ → S → S × Reply (List PendingEntry)
  pub claim : Text → Text → Text → ℕ → List Text → S → S × Reply (List StreamEntry)
  pub consumer_pending_count : Text → Text → Text → S → S × Reply ℕ
  pub delete_consumer : Text → Text → Text → S → S × Reply ℕ

pub data ParkReason : Type 0 where
  delivery_ceiling undecodable : ParkReason

pub record ParkedEntry : Type 0 where
  pub entry : StreamEntry
  pub reason : ParkReason
  pub last_error : Text
  pub delivery_count : ℕ

pub record StreamEntryContext : Type 0 where
  pub entry_id : Text
  pub delivery_count : ℕ
  pub reclaimed : Bool

-- A handler's promise: what becomes of it, and after how many milliseconds.
pub data Settling : Type 0 where
  fulfils : ℕ → Settling
  rejects : ℕ → Text → Settling
  hangs : Settling

-- What the worker is given besides the commands. `malformed` and `timed_out` describe its own errors.
pub record Callbacks (S V : Type 0) : Type 0 where
  pub libraries : Libraries V
  pub handler : StreamEventEnvelope V → StreamEntryContext → S → S × Settling
  pub on_park : ParkedEntry → S → S × Reply Unit
  pub malformed : StreamEntry → Text
  pub timed_out : Text → ℕ → Text

pub record StreamTickOutcome : Type 0 where
  pub read : ℕ
  pub reclaimed : ℕ
  pub handled : ℕ
  pub failed : ℕ
  pub parked : ℕ

abbrev pub empty_outcome : StreamTickOutcome
empty_outcome = record { read = 0; reclaimed = 0; handled = 0; failed = 0; parked = 0 }

abbrev pub add_outcome : StreamTickOutcome → StreamTickOutcome → StreamTickOutcome
add_outcome a b = record {
  read = a.read + b.read;
  reclaimed = a.reclaimed + b.reclaimed;
  handled = a.handled + b.handled;
  failed = a.failed + b.failed;
  parked = a.parked + b.parked;
}

pub record ResolvedOptions : Type 0 where
  pub key : Text
  pub group : Text
  pub consumer : Text
  pub batch_size : ℕ
  pub block_ms : ℕ
  pub handler_timeout_ms : ℕ
  pub min_idle_ms : ℕ
  pub max_deliveries : ℕ
  pub claim_batch_size : ℕ
  pub reclaim_interval_ms : ℕ
  pub error_backoff_ms : ℕ
  pub max_error_backoff_ms : ℕ

pub record Work (S : Type 0) : Type 0 where
  pub server : S
  pub handed : List Text
  pub settled : List Text

-- A promise of the worker: it leaves the state behind when it rejects, too.
abbrev pub Action : Type 0 → Type 0 → Type 0
Action S A = Work S → Work S × Reply A

abbrev pub pure : {S A : Type 0} → A → Action S A
pure a w = (w, ok a)

infixl 5 ◌>>=◌ ◌>>◌
abbrev pub ◌>>=◌ : {S A B : Type 0} → Action S A → (A → Action S B) → Action S B
◌>>=◌ m f w = let (next, reply) = m w in elim reply [ ok a ↦ f a next | error e ↦ (next, error e) ]

abbrev pub ◌>>◌ : {S A B : Type 0} → Action S A → Action S B → Action S B
m >> k = m >>= λ _. k

-- An operation of the server.
abbrev pub call : {S A : Type 0} → (S → S × Reply A) → Action S A
call f w = let (next, reply) = f w.server in (record w { server = next }, reply)

-- The trace.
abbrev pub note_handed : {S : Type 0} → List StreamEntry → Action S Unit
note_handed es w = (record w { handed = map (λ (e : StreamEntry). e.id) es ++ w.handed }, ok tt)

abbrev pub note_settled : {S : Type 0} → Text → Action S Unit
note_settled id w = (record w { settled = id ∷ w.settled }, ok tt)
