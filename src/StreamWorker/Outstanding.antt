-- ===== src/StreamWorker/Outstanding.antt =====
-- src/redis/stream.memory.ts as the commands of src/redis/stream.worker.ts: an entry that is stored and on
-- the pending list.
use boilerplate_express_ts.Prelude.{
  ℕ, zero, ◌≡◌, ◌≢◌, refl, sym, subst, inl, inr, Bool, true, false, Option, none, some, List, [],
  ◌∷◌, Text, text_eq, text_eq_iff, All, All-mono, ◌∙◌, arith, Bool-cases,
}
use boilerplate_express_ts.Prelude.Map
use boilerplate_express_ts.Prelude.Map.{Map}
use boilerplate_express_ts.StreamGroup.{
  StreamEntry, PendingEntry, Group, find_entry, is_held_by, delete_in_group,
}
use boilerplate_express_ts.StreamGroup.Retention.{is_held}
use boilerplate_express_ts.StreamMemory
use boilerplate_express_ts.StreamMemory.{
  MemoryStream, get_group, put_group, entries, with_group, on_group,
}
use boilerplate_express_ts.StreamMemory.Histories.{
  creates, reads, acks, claims, step, or_else, answer_of,
}
use boilerplate_express_ts.StreamMemory.Handovers.{get_group-put_self}
use boilerplate_express_ts.StreamMemory.Retention.{holds_in, IsOutstanding, step-IsOutstanding}
use boilerplate_express_ts.StreamMemory.Redelivery.{
  find_entry-cons, find_entry-head, handed-IsOutstanding,
}
use boilerplate_express_ts.StreamWorker.{Reply, ok, error}
use boilerplate_express_ts.StreamWorker.Laws.{OfEntries, KeepsPending}
use boilerplate_express_ts.StreamWorker.Memory.{
  Server, elapse, reply_of, elapse_read, reply_pending, memory_commands,
}

reply_of-memory :
    {A : Type 0} (s : Server) (o : Option (MemoryStream × A))
    → (reply_of s o).0.memory ≡ or_else s.memory o
unfolding reply_of
reply_of-memory s none = refl
reply_of-memory s (some (m, a)) = refl

elapse_read-memory : (r : Server × Reply (List StreamEntry)) → (elapse_read r).0.memory ≡ r.0.memory
elapse_read-memory (s, ok es) = refl
elapse_read-memory (s, error e) = refl

reply_pending-memory :
    (s : Server) (o : Option (List PendingEntry)) → (reply_pending s o).0.memory ≡ s.memory
reply_pending-memory s none = refl
reply_pending-memory s (some ps) = refl

-- Nothing is deleted when nothing counts.
delete_if-none :
    {V : Type 0} (p : V → Bool) (m : Map V) → Map.count_if p m ≡ 0 → Map.delete_if p m ≡ m
unfolding Map.count_if Map.delete_if
delete_if-none p [] e = refl
delete_if-none p ((k, v) ∷ m) e = ground (arith, delete_if-none p m)

abbrev pub Kept : Text → Text → Text → Server → Type 0
Kept key group id s = IsOutstanding key group id s.memory

module _ (key group consumer id : Text) where
  deleted-IsOutstanding :
      (s : MemoryStream) (o : Option Group)
      → get_group key group s ≡ o
      → StreamMemory.consumer_pending_count key group consumer s ≡ 0
      → IsOutstanding key group id s
      → IsOutstanding key group id (StreamMemory.delete_consumer key group consumer s).0
  unfolding StreamMemory.delete_consumer StreamMemory.consumer_pending_count delete_in_group
  deleted-IsOutstanding s none here e kept = rw (here, StreamMemory.delete_consumer) kept
  deleted-IsOutstanding s (some g) here e kept =
      let next = (delete_in_group consumer g).0 in
      let counted : StreamMemory.consumer_pending_count key group consumer s
          ≡ Map.count_if (is_held_by consumer) g.pending =
        rw (here, StreamMemory.consumer_pending_count) refl in
      let same = delete_if-none (is_held_by consumer) g.pending (sym counted ∙ e) in
      let was : is_held id g.pending ≡ true = subst (λ o. holds_in id o ≡ true) here kept.held in
      rw (here, StreamMemory.delete_consumer)
        (record { stored = kept.stored; held = rw (get_group-put_self key group next s, same) was })

  claim-Kept :
      (min_idle_ms : ℕ) (ids : List Text) (s : Server)
      → Kept key group id s
      → Kept key group id (memory_commands.claim key group consumer min_idle_ms ids s).0
  unfolding memory_commands step
  claim-Kept min_idle_ms ids s kept =
      subst (IsOutstanding key group id)
        (sym (
          reply_of-memory (elapse 1 s)
            (StreamMemory.claim key group consumer min_idle_ms ids (s.clock 0) s.memory)))
        (step-IsOutstanding key group id s.memory
          (claims key group consumer min_idle_ms ids (s.clock 0)) refl kept)

  read_group-Kept :
      (count block_ms : ℕ) (s : Server)
      → Kept key group id s
      → Kept key group id (memory_commands.read_group key group consumer count block_ms s).0
  unfolding memory_commands step
  read_group-Kept count block_ms s kept =
      let o = StreamMemory.read_group key group consumer count s.clock s.memory in
      subst (IsOutstanding key group id)
        (sym (elapse_read-memory (reply_of s o) ∙ reply_of-memory s o))
        (step-IsOutstanding key group id s.memory (reads key group consumer count s.clock) refl
          kept)

  create_group-Kept :
      (from_end mkstream : Bool) (s : Server)
      → Kept key group id s
      → Kept key group id (memory_commands.create_group key group from_end mkstream s).0
  unfolding memory_commands step
  create_group-Kept from_end mkstream s kept =
      subst (IsOutstanding key group id)
        (sym (reply_of-memory s (StreamMemory.create_group key group from_end mkstream s.memory)))
        (step-IsOutstanding key group id s.memory (creates key group from_end mkstream) refl kept)

  ack-Kept :
      (acked : Text) (s : Server)
      → acked ≢ id
      → Kept key group id s
      → Kept key group id (memory_commands.ack key group (acked ∷ []) s).0
  unfolding memory_commands step
  ack-Kept acked s differ kept =
      let safe : text_eq acked id ≡ false = elim (Bool-cases (text_eq acked id)) [
        | inl same ↦ absurd (differ ((text_eq_iff acked id).0 same))
        | inr other ↦ other
      ] in
      subst (IsOutstanding key group id)
        (sym (reply_of-memory s (StreamMemory.ack key group (acked ∷ []) s.memory)))
        (step-IsOutstanding key group id s.memory (acks key group (acked ∷ []))
          (ground (arith, safe)) kept)

  pending_entries-Kept :
      (min_idle_ms count : ℕ) (s : Server)
      → Kept key group id s
      → Kept key group id (memory_commands.pending_entries key group min_idle_ms count s).0
  unfolding memory_commands
  pending_entries-Kept min_idle_ms count s kept =
      subst (IsOutstanding key group id)
        (sym (
          reply_pending-memory s
            (StreamMemory.pending_entries key group min_idle_ms count none (s.clock 0) s.memory)))
        kept

-- Every entry of an answer is found in it.
found_in : (es : List StreamEntry) → All (λ (e : StreamEntry). find_entry e.id es ≢ none) es
found_in [] = tt
found_in (e ∷ es) = (
  find_entry-head e es,
  All-mono (λ (f : StreamEntry). find_entry f.id es ≢ none)
      (λ (f : StreamEntry). find_entry f.id (e ∷ es) ≢ none) es (λ f h. find_entry-cons f.id e es h)
      (found_in es),
)

reply_of-OfEntries :
    (key group : Text) (s : Server) (o : Option (MemoryStream × List StreamEntry))
    → ((id : Text)
        → find_entry id (answer_of o) ≢ none
        → IsOutstanding key group id (or_else s.memory o))
    → OfEntries (Kept key group) (elapse_read (reply_of s o))
unfolding reply_of
reply_of-OfEntries key group s none outstanding = tt
reply_of-OfEntries key group s (some (m, es)) outstanding =
    All-mono (λ (e : StreamEntry). find_entry e.id es ≢ none)
      (λ (e : StreamEntry). IsOutstanding key group e.id m) es (λ e h. outstanding e.id h)
      (found_in es)

read_group-OfEntries :
    (key group consumer : Text) (count block_ms : ℕ) (s : Server)
    → OfEntries (Kept key group) (memory_commands.read_group key group consumer count block_ms s)
unfolding memory_commands StreamMemory.read_group
read_group-OfEntries key group consumer count block_ms s =
    reply_of-OfEntries key group s
      (StreamMemory.read_group key group consumer count s.clock s.memory)
      (λ id h.
        handed-IsOutstanding key group consumer id count s.clock (get_group key group s.memory)
          s.memory h)

delete_consumer-Kept :
    (key group consumer id : Text) (s : Server)
    → (memory_commands.consumer_pending_count key group consumer s).1 ≡ ok zero
    → Kept key group id s
    → Kept key group id
        (memory_commands.delete_consumer key group consumer
          (memory_commands.consumer_pending_count key group consumer s).0).0
unfolding memory_commands
delete_consumer-Kept key group consumer id s e kept =
    deleted-IsOutstanding key group consumer id s.memory (get_group key group s.memory) refl (cc e)
      kept

-- An entry that is stored and on the pending list stays so under the commands of the worker, but for its
-- acknowledgement and the removal of a consumer that holds some, and what a read hands out is both.
pub memory_commands-KeepsPending : KeepsPending memory_commands Kept
unfolding memory_commands
memory_commands-KeepsPending = record {
  create_group = λ key group id. create_group-Kept key group [] id;
  read_group = λ key group consumer id. read_group-Kept key group consumer id;
  handed = read_group-OfEntries;
  ack = λ key group acked id. ack-Kept key group [] id acked;
  pending_entries = λ key group id. pending_entries-Kept key group [] id;
  claim = λ key group consumer id. claim-Kept key group consumer id;
  consumer_pending_count = λ key group consumer id s kept. kept;
  delete_consumer = delete_consumer-Kept;
}
