-- ===== src/StreamWorker/Accounts.antt =====
-- src/redis/stream.worker.ts: the entries that a worker was handed, while it treats one.
use boilerplate_express_ts.Prelude.{
  ℕ, ◌≡◌, ◌⊎◌, subst, inl, inr, Bool, true, Option, none, some, List, [], ◌∷◌, if◌then◌else◌, leb,
  length, Text, text_eq, text_eq_iff, All-mono, arith, Bool-cases,
}
use boilerplate_express_ts.Prelude.Map.{Map}
use boilerplate_express_ts.StreamGroup.{StreamEntry}
use boilerplate_express_ts.StreamGroup.Retention.{mentions}
use boilerplate_express_ts.StreamEnvelope.{StreamEventEnvelope, decode_envelope}
use boilerplate_express_ts.StreamWorker.{
  Reply, StreamCommands, Callbacks, ParkedEntry, delivery_ceiling, undecodable, StreamEntryContext,
  ResolvedOptions, Work, pure, ◌>>=◌, ◌>>◌, call, note_settled,
}
use boilerplate_express_ts.StreamWorker.Ticks.{
  run_within, was_handled, was_failed, was_parked, count_of, add_treated, ack_entry, park_entry,
  park, note_failure, handle_entry, conclude, process_decoded, process_each, process_entries,
}
use boilerplate_express_ts.StreamWorker.Triples.{
  Ensures, Any, bind-Ensures, trivially, pure-Ensures,
}
use boilerplate_express_ts.StreamWorker.Laws.{KeepsPending, LeavesPending, IsAccounted}

module _ {S V : Type 0} (commands : StreamCommands S) (host : Callbacks S V)
    (options : ResolvedOptions) (Kept : Text → Text → Text → S → Type 0)
    (laws : KeepsPending commands Kept) (leaves : LeavesPending host Kept) where
  abbrev pub Pending : Text → S → Type 0
  Pending = Kept options.key options.group

  abbrev pub Safe : Work S → Type 0
  Safe = IsAccounted Pending

  abbrev pub Always : Work S → Type 0
  Always w = Unit

  abbrev IsSettled : Text → Work S → Type 0
  IsSettled id w = mentions id w.settled ≡ true

  -- Another state of the server, in which everything pending is still so.
  pub server-Safe :
      (s : S) (w : Work S)
      → ((id : Text) → Pending id w.server → Pending id s)
      → Safe w
      → Safe (record w { server = s })
  server-Safe s w keeps safe =
      All-mono (λ id. Pending id w.server ⊎ IsSettled id w) (λ id. Pending id s ⊎ IsSettled id w)
        w.handed (λ id h. elim h [ inl p ↦ inl (keeps id p) | inr q ↦ inr q ]) safe

  note_settled-Safe : (id : Text) (w : Work S) → Safe w → Safe (note_settled id w).0
  note_settled-Safe id w safe =
      All-mono (λ j. Pending j w.server ⊎ IsSettled j w)
        (λ j. Pending j w.server ⊎ (mentions j (id ∷ w.settled) ≡ true)) w.handed
        (λ j h. elim h [ inl p ↦ inl p | inr q ↦ inr (ground (arith, q)) ]) safe

  pub call-Ensures :
      {A : Type 0} (P : Work S → Type 0) (f : S → S × Reply A)
      → ((id : Text) (s : S) → Pending id s → Pending id (f s).0)
      → Ensures Safe P (call f) (Any Safe)
  call-Ensures P f keeps w safe p = (
    server-Safe (f w.server).0 w (λ id kept. keeps id w.server kept) safe,
    trivially Safe (call f w).0 (call f w).1,
  )

  ack_kept :
      (id j : Text) (w : Work S)
      → IsSettled id w
      → Pending j w.server ⊎ IsSettled j w
      → Pending j (ack_entry commands host options id w).0.server ⊎ IsSettled j w
  ack_kept id j w done (inr settled) = inr settled
  ack_kept id j w done (inl kept) = elim (Bool-cases (text_eq id j)) [
    | inl same ↦ inr (subst (λ i. IsSettled i w) ((text_eq_iff id j).0 same) done)
    | inr differ ↦ inl (
        laws.ack options.key options.group id j w.server
          (λ same. ground (arith, differ, (text_eq_iff id j).1 same)) kept)
  ]

  ack_entry-Ensures :
      (id : Text) → Ensures Safe (IsSettled id) (ack_entry commands host options id) (Any Safe)
  ack_entry-Ensures id w safe done =
      let after = ack_entry commands host options id w in
      (
        All-mono (λ j. Pending j w.server ⊎ IsSettled j w)
            (λ j. Pending j after.0.server ⊎ IsSettled j w) w.handed (λ j h. ack_kept id j w done h)
            safe,
        trivially Safe after.0 after.1,
      )

  park_entry-Ensures :
      (parked : ParkedEntry)
      → Ensures Safe Always
          (park_entry commands host options parked)
          (λ _ w. IsSettled parked.entry.id w)
  unfolding park_entry
  park_entry-Ensures parked =
      bind-Ensures Safe Always (Any Safe) (λ _ w. IsSettled parked.entry.id w)
        (call (host.on_park parked)) (λ _. note_settled parked.entry.id)
        (call-Ensures Always (host.on_park parked)
          (λ id s kept. leaves.on_park options.key options.group id parked s kept))
        (λ _ w safe p. (
          note_settled-Safe parked.entry.id w safe,
          ground (arith, text_eq_iff parked.entry.id parked.entry.id),
        ))

  park-Ensures :
      (parked : ParkedEntry) → Ensures Safe Always (park commands host options parked) (Any Safe)
  unfolding park
  park-Ensures parked =
      bind-Ensures Safe Always (λ _ w. IsSettled parked.entry.id w) (Any Safe)
        (park_entry commands host options parked)
        (λ _. ack_entry commands host options parked.entry.id >> pure was_parked)
        (park_entry-Ensures parked)
        (λ _.
          bind-Ensures Safe (IsSettled parked.entry.id) (Any Safe) (Any Safe)
            (ack_entry commands host options parked.entry.id) (λ _. pure was_parked)
            (ack_entry-Ensures parked.entry.id)
            (λ n. pure-Ensures Safe (Any Safe n) (Any Safe) was_parked (λ w p. tt)))

  -- A handler that gave no failure settled its entry.
  abbrev IsConcluded : Text → Option Text → Work S → Type 0
  IsConcluded id none w = IsSettled id w
  IsConcluded id (some message) w = Unit

  note_failure-Ensures :
      (id : Text) (failure : Option Text)
      → Ensures Safe Always (note_failure commands host options id failure) (IsConcluded id)
  note_failure-Ensures id none w safe p =
      (note_settled-Safe id w safe, ground (arith, text_eq_iff id id))
  note_failure-Ensures id (some message) w safe p = (safe, tt)

  handle_entry-Ensures :
      (envelope : StreamEventEnvelope V) (context : StreamEntryContext)
      → Ensures Safe Always
          (handle_entry commands host options envelope context)
          (IsConcluded context.entry_id)
  unfolding handle_entry
  handle_entry-Ensures envelope context w safe p =
      let (next, settling) = host.handler envelope context w.server in
      note_failure-Ensures context.entry_id
        (run_within context.entry_id options.handler_timeout_ms host.timed_out settling)
        (record w { server = next })
        (server-Safe next w
          (λ id kept. leaves.handler options.key options.group id envelope context w.server kept)
          safe)
        tt

  conclude-Ensures :
      (entry : StreamEntry) (count : ℕ) (failure : Option Text)
      → Ensures Safe
          (IsConcluded entry.id failure)
          (conclude commands host options entry count failure)
          (Any Safe)
  unfolding conclude
  conclude-Ensures entry count none =
      bind-Ensures Safe (IsSettled entry.id) (Any Safe) (Any Safe)
        (ack_entry commands host options entry.id) (λ _. pure was_handled)
        (ack_entry-Ensures entry.id)
        (λ n. pure-Ensures Safe (Any Safe n) (Any Safe) was_handled (λ w p. tt))
  conclude-Ensures entry count (some message) =
      let parked : ParkedEntry = record {
        entry = entry;
        reason = delivery_ceiling;
        last_error = message;
        delivery_count = count;
      } in
      elim (Bool-cases (leb options.max_deliveries count)) [
        | inl last ↦ rw last (park-Ensures parked)
        | inr more ↦ rw more (pure-Ensures Safe Always (Any Safe) was_failed (λ w p. tt))
      ]

  process_decoded-Ensures :
      (entry : StreamEntry) (count : ℕ) (reclaimed : Bool) (o : Option (StreamEventEnvelope V))
      → Ensures Safe Always
          (process_decoded commands host options entry count reclaimed o)
          (Any Safe)
  unfolding process_decoded
  process_decoded-Ensures entry count reclaimed none = park-Ensures (record {
    entry = entry;
    reason = undecodable;
    last_error = host.malformed entry;
    delivery_count = count;
  })
  process_decoded-Ensures entry count reclaimed (some envelope) =
      let context : StreamEntryContext = record {
        entry_id = entry.id;
        delivery_count = count;
        reclaimed = reclaimed;
      } in
      bind-Ensures Safe Always (IsConcluded entry.id) (Any Safe)
        (handle_entry commands host options envelope context)
        (λ failure. conclude commands host options entry count failure)
        (handle_entry-Ensures envelope context) (λ failure. conclude-Ensures entry count failure)

  process_each-Ensures :
      (entries : List StreamEntry) (counts : Map ℕ) (reclaimed : Bool)
      → Ensures Safe Always (process_each commands host options entries counts reclaimed) (Any Safe)
  unfolding process_each
  process_each-Ensures [] counts reclaimed = λ w safe p. (safe, tt)
  process_each-Ensures (entry ∷ entries) counts reclaimed =
      let count = count_of entry.id counts in
      let decoded = decode_envelope host.libraries entry in
      let rest = process_each commands host options entries counts reclaimed in
      bind-Ensures Safe Always (Any Safe) (Any Safe)
        (process_decoded commands host options entry count reclaimed decoded)
        (λ treated. rest >>= λ o. pure (add_treated treated o))
        (process_decoded-Ensures entry count reclaimed decoded)
        (λ treated.
          bind-Ensures Safe Always (Any Safe) (Any Safe) rest (λ o. pure (add_treated treated o))
            (process_each-Ensures entries counts reclaimed)
            (λ o. pure-Ensures Safe Always (Any Safe) (add_treated treated o) (λ w p. tt)))

  pub process_entries-Ensures :
      (entries : List StreamEntry) (counts : Map ℕ) (reclaimed : Bool)
      → Ensures Safe Always
          (process_entries commands host options entries counts reclaimed)
          (Any Safe)
  unfolding process_entries
  process_entries-Ensures entries counts reclaimed =
      bind-Ensures Safe Always (Any Safe) (Any Safe)
        (process_each commands host options entries counts reclaimed)
        (λ o. pure (record o {
          read = if reclaimed then 0 else length entries;
          reclaimed = if reclaimed then length entries else 0;
        }))
        (process_each-Ensures entries counts reclaimed) (λ o w safe p. (safe, tt))
