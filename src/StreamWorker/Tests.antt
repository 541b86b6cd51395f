-- ===== src/StreamWorker/Tests.antt =====
-- Runs of src/redis/stream.worker.ts over a stream in memory, with a handler that is rejected for one name.
use boilerplate_express_ts.Prelude.{
  suc, ◌≡◌, refl, true, none, some, List, [], ◌∷◌, ◌*◌, if◌then◌else◌, Text, text_eq, codes, print,
  read,
}
use boilerplate_express_ts.Prelude.Map
use boilerplate_express_ts.Prelude.Scan.{split}
use boilerplate_express_ts.StreamGroup.{StreamEntry, is_after}
use boilerplate_express_ts.StreamMemory
use boilerplate_express_ts.StreamEnvelope.{
  Libraries, StreamEventEnvelope, encode_envelope, decode_envelope,
}
use boilerplate_express_ts.StreamWorker.{ok, fulfils, rejects, Callbacks, ResolvedOptions, Work}
use boilerplate_express_ts.StreamWorker.Options.{
  StreamWorkerOptions, resolved, refused, idle_floor, with_defaults, check_options, resolve_options,
}
use boilerplate_express_ts.StreamWorker.Triples.{OfReply}
use boilerplate_express_ts.StreamWorker.Ticks.{process_decoded, run_stream_tick}
use boilerplate_express_ts.StreamWorker.Loop.{Event, starts, stops, turns, new_worker, run}
use boilerplate_express_ts.StreamWorker.Laws.{LeavesPending, IsAccounted}
use boilerplate_express_ts.StreamWorker.Memory.{Server, memory_commands}
use boilerplate_express_ts.StreamWorker.Outstanding.{Kept, memory_commands-KeepsPending}
use boilerplate_express_ts.StreamWorker.Runs.{run-IsAccounted}
use boilerplate_express_ts.StreamWorker.Ceiling.{IsTreated, process_decoded-IsTreated}
use boilerplate_express_ts.StreamWorker.Redelivery.{untouched, IsRecoverable, run-IsRecoverable}

abbrev plain : Libraries Text
plain = record {
  is_datetime = λ _. true;
  parse_date = read;
  to_iso_string = λ ms. some (print ms);
  parse_json = some;
  stringify = λ t. t;
}

abbrev event : Text → Text → StreamEventEnvelope Text
event id name = record {
  id = id;
  name = name;
  occurred_at = 5;
  correlation_id = none;
  payload = [];
}

-- `"bad"` is rejected, everything else is fulfilled after a millisecond.
abbrev host : Callbacks Server Text
host = record {
  libraries = plain;
  handler = λ envelope context s.
      (s, if text_eq envelope.name (codes "bad") then rejects 1 (codes "no") else fulfils 1);
  on_park = λ parked s. (s, ok tt);
  malformed = λ entry. codes "malformed";
  timed_out = λ id ms. codes "timeout";
}

host-LeavesPending : LeavesPending host Kept
host-LeavesPending = record {
  handler = λ key group id envelope context s kept. kept;
  on_park = λ key group id parked s kept. kept;
}

abbrev chosen : StreamWorkerOptions
chosen = record {
  key = codes "k";
  group = codes "g";
  consumer = codes "c";
  batch_size = none;
  block_ms = none;
  handler_timeout_ms = none;
  min_idle_ms = none;
  max_deliveries = some 2;
  claim_batch_size = none;
  reclaim_interval_ms = none;
  error_backoff_ms = none;
  max_error_backoff_ms = none;
}

abbrev options : ResolvedOptions
options = with_defaults chosen

resolve_chosen : resolve_options chosen ≡ resolved (with_defaults chosen)
unfolding resolve_options check_options with_defaults
resolve_chosen = refl

resolve_low_floor :
    resolve_options (record chosen { min_idle_ms = some 10000 }) ≡ refused idle_floor
unfolding resolve_options check_options with_defaults
resolve_low_floor = refl

abbrev sent_as : Text → Text → Map.Map Text
unfolding encode_envelope
sent_as id name = StreamMemory.or_empty (encode_envelope plain (event id name))

-- A group, and behind its cursor an event of each name and bytes that are no envelope.
abbrev start_memory : StreamMemory.MemoryStream
start_memory = record {
  streams =
      (
        codes "k",
        record { id = codes "9-1"; fields = sent_as (codes "1") (codes "good") }
            ∷ record { id = codes "9-2"; fields = sent_as (codes "2") (codes "bad") }
            ∷ record { id = codes "9-3"; fields = [] }
            ∷ [],
      )
      ∷ [];
  groups =
      (codes "k", (codes "g", record { cursor = none; pending = []; consumers = [] }) ∷ []) ∷ [];
  sequence = 3;
}

abbrev begun : Work Server
begun = record {
  server = record { memory = start_memory; clock = λ i. 40000 * suc i };
  handed = [];
  settled = [];
}

abbrev life : List Event
life = starts ∷ turns 0 0 ∷ turns 9000 0 ∷ stops ∷ []

counts_of_tick :
    (run_stream_tick memory_commands host options true begun).1
    ≡ ok (record { read = 3; reclaimed = 0; handled = 1; failed = 1; parked = 1 })
unfolding run_stream_tick memory_commands with_defaults StreamMemory.pending_entries
    StreamMemory.read_group StreamMemory.ack decode_envelope encode_envelope Map.get Map.put text_eq
    is_after split read
counts_of_tick = refl

-- The second turn reclaims what failed, and parks it.
settled_in_life :
    (run memory_commands host options life (new_worker, begun)).1.settled
    ≡ codes "9-2" ∷ codes "9-3" ∷ codes "9-1" ∷ []
unfolding run memory_commands with_defaults StreamMemory.create_group StreamMemory.pending_entries
    StreamMemory.read_group StreamMemory.ack StreamMemory.claim StreamMemory.consumer_pending_count
    StreamMemory.delete_consumer decode_envelope encode_envelope Map.get Map.put Map.delete
    Map.count_if Map.delete_if text_eq is_after split read
settled_in_life = refl

nothing_lost :
    IsAccounted
      (Kept (codes "k") (codes "g"))
      (run memory_commands host options life (new_worker, begun)).1
unfolding with_defaults
nothing_lost =
    run-IsAccounted memory_commands host options Kept memory_commands-KeepsPending
      host-LeavesPending life new_worker begun tt

-- The second failure of an entry that may be delivered twice.
abbrev failing : StreamEntry
failing = record { id = codes "9-2"; fields = sent_as (codes "2") (codes "bad") }

second_failure : OfReply (IsTreated memory_commands host options (codes "9-2") 2) (
    process_decoded memory_commands host options failing 2 true
      (some (event (codes "2") (codes "bad")))
      begun)
second_failure =
    process_decoded-IsTreated memory_commands host options failing 2 true
      (some (event (codes "2") (codes "bad"))) begun

taken_over :
    IsRecoverable options
      (codes "d")
      30000
      90000
      (run memory_commands host options life (new_worker, untouched begun.server)).1
taken_over =
    run-IsRecoverable host options host-LeavesPending (codes "d") 30000 90000 life new_worker
      begun.server
