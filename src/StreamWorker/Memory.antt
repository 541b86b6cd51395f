-- ===== src/StreamWorker/Memory.antt =====
-- src/redis/stream.memory.ts as the commands of src/redis/stream.worker.ts. A server is its streams with
-- the readings of its clock to come. The wait of a read that finds nothing is left out.
use boilerplate_express_ts.Prelude.{ℕ, ◌+◌, Option, none, some, List, length}
use boilerplate_express_ts.StreamGroup.{StreamEntry, PendingEntry}
use boilerplate_express_ts.StreamMemory
use boilerplate_express_ts.StreamMemory.{
  MemoryStream, get_group, put_group, entries, with_group, on_group,
}
use boilerplate_express_ts.StreamWorker.{Reply, ok, error, no_group, StreamCommands}

pub record Server : Type 0 where
  pub memory : MemoryStream
  pub clock : ℕ → ℕ

abbrev pub elapse : ℕ → Server → Server
elapse n s = record s { clock = λ i. s.clock (n + i) }

-- An operation that throws `NOGROUP` leaves the streams.
unfoldable pub reply_of : {A : Type 0} → Server → Option (MemoryStream × A) → Server × Reply A
reply_of s none = (s, error no_group)
reply_of s (some (m, a)) = (record s { memory = m }, ok a)

-- A read takes a reading of the clock for every entry that it hands out.
abbrev pub elapse_read : Server × Reply (List StreamEntry) → Server × Reply (List StreamEntry)
elapse_read (s, ok es) = (elapse (length es) s, ok es)
elapse_read (s, error e) = (s, error e)

abbrev pub reply_pending : Server → Option (List PendingEntry) → Server × Reply (List PendingEntry)
reply_pending s none = (s, error no_group)
reply_pending s (some ps) = (elapse 1 s, ok ps)

unfoldable pub memory_commands : StreamCommands Server
unfolding reply_of
memory_commands = record {
  create_group = λ key group from_end mkstream s.
      reply_of s (StreamMemory.create_group key group from_end mkstream s.memory);
  append = λ key fields max_len s.
      let (m, id) = StreamMemory.append key fields max_len (s.clock 0) s.memory in
      (record (elapse 1 s) { memory = m }, ok id);
  read_group = λ key group consumer count block_ms s.
      elapse_read (reply_of s (StreamMemory.read_group key group consumer count s.clock s.memory));
  ack = λ key group ids s. reply_of s (StreamMemory.ack key group ids s.memory);
  pending_entries = λ key group min_idle_ms count s.
      reply_pending s
        (StreamMemory.pending_entries key group min_idle_ms count none (s.clock 0) s.memory);
  claim = λ key group consumer min_idle_ms ids s.
      reply_of (elapse 1 s)
        (StreamMemory.claim key group consumer min_idle_ms ids (s.clock 0) s.memory);
  consumer_pending_count = λ key group consumer s.
      (s, ok (StreamMemory.consumer_pending_count key group consumer s.memory));
  delete_consumer = λ key group consumer s.
      let (m, n) = StreamMemory.delete_consumer key group consumer s.memory in
      (record s { memory = m }, ok n);
}
