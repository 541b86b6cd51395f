-- ===== src/StreamWorker/Ceiling.antt =====
-- src/redis/stream.worker.ts: how the treatment of one entry ends.
use boilerplate_express_ts.Prelude.{
  ℕ, ◌<◌, ◌≡◌, inl, inr, Bool, true, Option, none, some, leb, Text, text_eq_iff, arith, Bool-cases,
}
use boilerplate_express_ts.StreamGroup.{StreamEntry}
use boilerplate_express_ts.StreamGroup.Retention.{mentions}
use boilerplate_express_ts.StreamEnvelope.{StreamEventEnvelope}
use boilerplate_express_ts.StreamWorker.{
  Reply, ok, error, StreamCommands, Callbacks, ParkedEntry, delivery_ceiling, undecodable,
  StreamEntryContext, ResolvedOptions, Work, pure, ◌>>◌, call, note_settled,
}
use boilerplate_express_ts.StreamWorker.Ticks.{
  run_within, Treated, was_handled, was_failed, was_parked, ack_entry, park_entry, park,
  note_failure, handle_entry, conclude, process_decoded,
}
use boilerplate_express_ts.StreamWorker.Triples.{OfReply, Ensures, Any, bind-Ensures, trivially}

module _ {S V : Type 0} (commands : StreamCommands S) (host : Callbacks S V)
    (options : ResolvedOptions) where
  abbrev Always : Work S → Type 0
  Always w = Unit

  abbrev IsSettled : Text → Work S → Type 0
  IsSettled id w = mentions id w.settled ≡ true

  -- The entry was handled or parked, or it failed and may be delivered again.
  abbrev pub IsTreated : Text → ℕ → Treated → Work S → Type 0
  IsTreated id count was_handled w = IsSettled id w
  IsTreated id count was_parked w = IsSettled id w
  IsTreated id count was_failed w = count < options.max_deliveries

  reply-IsSettled :
      {A : Type 0} (id : Text) (w : Work S) (r : Reply A)
      → IsSettled id w
      → OfReply (λ a v. IsSettled id v) (w, r)
  reply-IsSettled id w (ok a) settled = settled
  reply-IsSettled id w (error e) settled = tt

  -- An acknowledgement, and the answer after it.
  ack_then :
      (id : Text) (count : ℕ) (t : Treated)
      → ((w : Work S) → IsSettled id w → IsTreated id count t w)
      → Ensures Always
          (IsSettled id)
          (ack_entry commands host options id >> pure t)
          (IsTreated id count)
  ack_then id count t treated =
      bind-Ensures Always (IsSettled id) (λ _ w. IsSettled id w) (IsTreated id count)
        (ack_entry commands host options id) (λ _. pure t)
        (λ w i settled.
          let (next, r) = ack_entry commands host options id w in
          (tt, reply-IsSettled id next r settled))
        (λ n w i settled. (tt, treated w settled))

  park_entry-settles :
      (parked : ParkedEntry)
      → Ensures Always Always
          (park_entry commands host options parked)
          (λ _ w. IsSettled parked.entry.id w)
  unfolding park_entry
  park_entry-settles parked =
      bind-Ensures Always Always (Any Always) (λ _ w. IsSettled parked.entry.id w)
        (call (host.on_park parked)) (λ _. note_settled parked.entry.id)
        (λ w i p.
          (tt, trivially Always (call (host.on_park parked) w).0 (host.on_park parked w.server).1))
        (λ _ w i p. (tt, ground (arith, text_eq_iff parked.entry.id parked.entry.id)))

  park-settles :
      (parked : ParkedEntry) (count : ℕ)
      → Ensures Always Always (park commands host options parked) (IsTreated parked.entry.id count)
  unfolding park
  park-settles parked count =
      bind-Ensures Always Always (λ _ w. IsSettled parked.entry.id w)
        (IsTreated parked.entry.id count) (park_entry commands host options parked)
        (λ _. ack_entry commands host options parked.entry.id >> pure was_parked)
        (park_entry-settles parked)
        (λ _. ack_then parked.entry.id count was_parked (λ w settled. settled))

  abbrev IsConcluded : Text → Option Text → Work S → Type 0
  IsConcluded id none w = IsSettled id w
  IsConcluded id (some message) w = Unit

  note_failure-concludes :
      (id : Text) (failure : Option Text)
      → Ensures Always Always (note_failure commands host options id failure) (IsConcluded id)
  note_failure-concludes id none w i p = (tt, ground (arith, text_eq_iff id id))
  note_failure-concludes id (some message) w i p = (tt, tt)

  conclude-treats :
      (entry : StreamEntry) (count : ℕ) (failure : Option Text)
      → Ensures Always
          (IsConcluded entry.id failure)
          (conclude commands host options entry count failure)
          (IsTreated entry.id count)
  unfolding conclude
  conclude-treats entry count none = ack_then entry.id count was_handled (λ w settled. settled)
  conclude-treats entry count (some message) =
      let parked : ParkedEntry = record {
        entry = entry;
        reason = delivery_ceiling;
        last_error = message;
        delivery_count = count;
      } in
      elim (Bool-cases (leb options.max_deliveries count)) [
        | inl last ↦ rw last (park-settles parked count)
        | inr more ↦ rw more (λ w i p. (tt, ground (arith, more)))
      ]

  -- The treatment of an entry, unless a command or the parking lot rejects: it is handled or parked, which
  -- settles it, or it failed, and then it was delivered fewer times than the ceiling.
  pub process_decoded-IsTreated :
      (entry : StreamEntry) (count : ℕ) (reclaimed : Bool) (o : Option (StreamEventEnvelope V))
      (w : Work S)
      → OfReply
          (IsTreated entry.id count)
          (process_decoded commands host options entry count reclaimed o w)
  unfolding process_decoded handle_entry
  process_decoded-IsTreated entry count reclaimed none w =
      (park-settles
        (record {
          entry = entry;
          reason = undecodable;
          last_error = host.malformed entry;
          delivery_count = count;
        })
        count w tt tt).1
  process_decoded-IsTreated entry count reclaimed (some envelope) w =
      let context : StreamEntryContext = record {
        entry_id = entry.id;
        delivery_count = count;
        reclaimed = reclaimed;
      } in
      (bind-Ensures Always Always (IsConcluded entry.id) (IsTreated entry.id count)
        (handle_entry commands host options envelope context)
        (conclude commands host options entry count)
        (λ v i p.
          let (next, settling) = host.handler envelope context v.server in
          note_failure-concludes entry.id
            (run_within entry.id options.handler_timeout_ms host.timed_out settling)
            (record v { server = next }) tt tt)
        (conclude-treats entry count) w tt tt).1
