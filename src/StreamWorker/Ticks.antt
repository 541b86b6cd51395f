-- ===== src/StreamWorker/Ticks.antt =====
-- src/redis/stream.worker.ts: one pass of a worker over its stream.
use boilerplate_express_ts.Prelude.{
  ℕ, suc, Bool, true, false, Option, none, some, List, [], ◌∷◌, map, leb, if◌then◌else◌, length,
  Text,
}
use boilerplate_express_ts.Prelude.Map
use boilerplate_express_ts.Prelude.Map.{Map}
use boilerplate_express_ts.StreamGroup.{StreamEntry, PendingEntry}
use boilerplate_express_ts.StreamMemory.{Created}
use boilerplate_express_ts.StreamEnvelope.{StreamEventEnvelope, decode_envelope}
use boilerplate_express_ts.StreamWorker.{
  StreamCommands, delivery_ceiling, undecodable, ParkedEntry, StreamEntryContext, Settling, fulfils,
  rejects, hangs, Callbacks, StreamTickOutcome, empty_outcome, add_outcome, ResolvedOptions, Action,
  pure, ◌>>=◌, ◌>>◌, call, note_handed, note_settled,
}

-- `runWithin`: `none` when the handler is fulfilled before the deadline, otherwise the error. The timer
-- of the deadline is set first.
unfoldable pub run_within : Text → ℕ → (Text → ℕ → Text) → Settling → Option Text
run_within entry_id timeout_ms timed_out (fulfils ms) =
    if leb timeout_ms ms then some (timed_out entry_id timeout_ms) else none
run_within entry_id timeout_ms timed_out (rejects ms message) =
    if leb timeout_ms ms then some (timed_out entry_id timeout_ms) else some message
run_within entry_id timeout_ms timed_out hangs = some (timed_out entry_id timeout_ms)

-- How one entry went: the counters of `processEntries`.
pub data Treated : Type 0 where
  was_handled was_failed was_parked : Treated

abbrev pub add_treated : Treated → StreamTickOutcome → StreamTickOutcome
add_treated was_handled o = record o { handled = suc o.handled }
add_treated was_failed o = record o { failed = suc o.failed }
add_treated was_parked o = record o { parked = suc o.parked }

-- `deliveryCounts.get(id) ?? 1`.
unfoldable pub count_of : Text → Map ℕ → ℕ
count_of id counts = elim (Map.get id counts) [ none ↦ 1 | some n ↦ n ]

-- What the map makes of the pending entries, the last of equal ids winning.
abbrev pub put_all : List PendingEntry → Map ℕ → Map ℕ
put_all [] counts = counts
put_all (p ∷ ps) counts = put_all ps (Map.put p.id (suc p.delivery_count) counts)

unfoldable pub delivery_counts : List PendingEntry → Map ℕ
delivery_counts ps = put_all ps []

module _ {S V : Type 0} (commands : StreamCommands S) (host : Callbacks S V)
    (options : ResolvedOptions) where
  abbrev pub ack_entry : Text → Action S ℕ
  ack_entry id = call (commands.ack options.key options.group (id ∷ []))

  -- `onPark`, noted when it is fulfilled.
  unfoldable pub park_entry : ParkedEntry → Action S Unit
  park_entry parked = do call (host.on_park parked); note_settled parked.entry.id

  unfoldable pub park : ParkedEntry → Action S Treated
  unfolding park_entry
  park parked = do park_entry parked; ack_entry parked.entry.id; pure was_parked

  -- The handler is fulfilled in time, which is noted, or not; `some` is its failure. What a handler does
  -- after it is given up is in the state that it leaves.
  abbrev pub note_failure : Text → Option Text → Action S (Option Text)
  note_failure id none = note_settled id >> pure none
  note_failure id (some message) = pure (some message)

  unfoldable pub handle_entry : StreamEventEnvelope V → StreamEntryContext → Action S (Option Text)
  unfolding run_within
  handle_entry envelope context w =
      let (next, settling) = host.handler envelope context w.server in
      note_failure context.entry_id
        (run_within context.entry_id options.handler_timeout_ms host.timed_out settling)
        (record w { server = next })

  -- What follows the handler of an entry.
  unfoldable pub conclude : StreamEntry → ℕ → Option Text → Action S Treated
  unfolding park
  conclude entry count none = do ack_entry entry.id; pure was_handled
  conclude entry count (some message) =
      if leb options.max_deliveries count
      then park (record {
        entry = entry;
        reason = delivery_ceiling;
        last_error = message;
        delivery_count = count;
      })
      else pure was_failed

  -- The body of the loop of `processEntries`, once the bytes of the entry are decoded.
  unfoldable pub process_decoded :
      StreamEntry → ℕ → Bool → Option (StreamEventEnvelope V) → Action S Treated
  unfolding park handle_entry conclude
  process_decoded entry count reclaimed none = park (record {
    entry = entry;
    reason = undecodable;
    last_error = host.malformed entry;
    delivery_count = count;
  })
  process_decoded entry count reclaimed (some envelope) = do
    failure ←
        handle_entry envelope
          (record { entry_id = entry.id; delivery_count = count; reclaimed = reclaimed })
    conclude entry count failure

  -- The loop of `processEntries`. An error of the commands or of `onPark` ends it.
  unfoldable pub process_each : List StreamEntry → Map ℕ → Bool → Action S StreamTickOutcome
  unfolding process_decoded count_of
  process_each [] counts reclaimed = pure empty_outcome
  process_each (entry ∷ entries) counts reclaimed = do
    treated ←
        process_decoded entry (count_of entry.id counts) reclaimed
          (decode_envelope host.libraries entry)
    rest ← process_each entries counts reclaimed
    pure (add_treated treated rest)

  unfoldable pub process_entries : List StreamEntry → Map ℕ → Bool → Action S StreamTickOutcome
  unfolding process_each
  process_entries entries counts reclaimed = do
    outcome ← process_each entries counts reclaimed
    pure (record outcome {
      read = if reclaimed then 0 else length entries;
      reclaimed = if reclaimed then length entries else 0;
    })

  -- `reclaimStalled` once some pending entries are found.
  unfoldable pub reclaim_pending : List PendingEntry → Action S StreamTickOutcome
  unfolding process_entries delivery_counts
  reclaim_pending [] = pure empty_outcome
  reclaim_pending (p ∷ ps) = do
    claimed ← call (
        commands.claim options.key options.group options.consumer options.min_idle_ms
          (map (λ (e : PendingEntry). e.id) (p ∷ ps)))
    process_entries claimed (delivery_counts (p ∷ ps)) true

  unfoldable pub reclaim_stalled : Action S StreamTickOutcome
  unfolding reclaim_pending
  reclaim_stalled = do
    pending ← call (
        commands.pending_entries options.key options.group options.min_idle_ms
          options.claim_batch_size)
    reclaim_pending pending

  -- A read of what is new, noted.
  unfoldable pub read_new : Action S (List StreamEntry)
  read_new = do
    entries ← call (
        commands.read_group options.key options.group options.consumer options.batch_size
          options.block_ms)
    note_handed entries
    pure entries

  unfoldable pub run_stream_tick : Bool → Action S StreamTickOutcome
  unfolding reclaim_stalled read_new process_entries
  run_stream_tick should_reclaim = do
    reclaim_outcome ← if should_reclaim then reclaim_stalled else pure empty_outcome
    entries ← read_new
    read_outcome ← process_entries entries [] false
    pure (add_outcome reclaim_outcome read_outcome)

  unfoldable pub ensure_group : Action S Created
  ensure_group = call (commands.create_group options.key options.group true true)
