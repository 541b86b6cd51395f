-- ===== src/StreamWorker/Laws.antt =====
-- src/redis/stream.worker.ts: what the worker relies on of the commands and of what it is given.
use boilerplate_express_ts.Prelude.{ℕ, zero, Bool, ◌≡◌, ◌≢◌, ◌⊎◌, true, List, [], ◌∷◌, Text, All}
use boilerplate_express_ts.StreamGroup.{StreamEntry}
use boilerplate_express_ts.StreamGroup.Retention.{mentions}
use boilerplate_express_ts.StreamEnvelope.{StreamEventEnvelope}
use boilerplate_express_ts.StreamWorker.{
  Reply, ok, error, StreamCommands, Callbacks, ParkedEntry, StreamEntryContext, Work,
}

-- Of the entries that an answer holds, in the state it leaves.
abbrev pub OfEntries : {S : Type 0} → (Text → S → Type 0) → S × Reply (List StreamEntry) → Type 0
OfEntries P (s, ok es) = All (λ (e : StreamEntry). P e.id s) es
OfEntries P (s, error e) = Unit

-- `Kept key group id` says that an entry is stored and on the pending list of a group. An `ack` of
-- another entry keeps it, and a consumer that has nothing pending is removed without a loss.
pub record KeepsPending {S : Type 0} (commands : StreamCommands S)
    (Kept : Text → Text → Text → S → Type 0) : Type 0 where
  pub create_group :
      (key group id : Text) (from_end mkstream : Bool) (s : S)
      → Kept key group id s
      → Kept key group id (commands.create_group key group from_end mkstream s).0
  pub read_group :
      (key group consumer id : Text) (count block_ms : ℕ) (s : S)
      → Kept key group id s
      → Kept key group id (commands.read_group key group consumer count block_ms s).0
  pub handed :
      (key group consumer : Text) (count block_ms : ℕ) (s : S)
      → OfEntries (Kept key group) (commands.read_group key group consumer count block_ms s)
  pub ack :
      (key group acked id : Text) (s : S)
      → acked ≢ id
      → Kept key group id s
      → Kept key group id (commands.ack key group (acked ∷ []) s).0
  pub pending_entries :
      (key group id : Text) (min_idle_ms count : ℕ) (s : S)
      → Kept key group id s
      → Kept key group id (commands.pending_entries key group min_idle_ms count s).0
  pub claim :
      (key group consumer id : Text) (min_idle_ms : ℕ) (ids : List Text) (s : S)
      → Kept key group id s
      → Kept key group id (commands.claim key group consumer min_idle_ms ids s).0
  pub consumer_pending_count :
      (key group consumer id : Text) (s : S)
      → Kept key group id s
      → Kept key group id (commands.consumer_pending_count key group consumer s).0
  pub delete_consumer :
      (key group consumer id : Text) (s : S)
      → (commands.consumer_pending_count key group consumer s).1 ≡ ok zero
      → Kept key group id s
      → Kept key group id
          (commands.delete_consumer key group consumer
            (commands.consumer_pending_count key group consumer s).0).0

-- The handler and the parking lot take no entry off the list.
pub record LeavesPending {S V : Type 0} (host : Callbacks S V)
    (Kept : Text → Text → Text → S → Type 0) : Type 0 where
  pub handler :
      (key group id : Text) (envelope : StreamEventEnvelope V) (context : StreamEntryContext)
      (s : S)
      → Kept key group id s
      → Kept key group id (host.handler envelope context s).0
  pub on_park :
      (key group id : Text) (parked : ParkedEntry) (s : S)
      → Kept key group id s
      → Kept key group id (host.on_park parked s).0

-- Every entry that a read handed out is still pending, or was handled or parked.
abbrev pub IsAccounted : {S : Type 0} → (Text → S → Type 0) → Work S → Type 0
IsAccounted Kept w = All (λ id. Kept id w.server ⊎ (mentions id w.settled ≡ true)) w.handed
