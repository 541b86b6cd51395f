-- ===== src/StreamWorker/Counts.antt =====
-- src/redis/stream.worker.ts: the numbers that a tick answers.
use boilerplate_express_ts.Prelude.{
  ℕ, suc, ◌+◌, ◌≡◌, refl, Bool, true, false, List, [], ◌∷◌, map, if◌then◌else◌, length, arith,
}
use boilerplate_express_ts.Prelude.Map.{Map}
use boilerplate_express_ts.StreamGroup.{StreamEntry, PendingEntry}
use boilerplate_express_ts.StreamEnvelope.{decode_envelope}
use boilerplate_express_ts.StreamWorker.{
  StreamCommands, Callbacks, StreamTickOutcome, empty_outcome, add_outcome, ResolvedOptions, Work,
  Action, pure, ◌>>=◌, call,
}
use boilerplate_express_ts.StreamWorker.Ticks.{
  Treated, was_handled, was_failed, was_parked, add_treated, count_of, delivery_counts,
  process_decoded, process_each, process_entries, reclaim_pending, reclaim_stalled, read_new,
  run_stream_tick,
}
use boilerplate_express_ts.StreamWorker.Triples.{OfReply, Ensures, Any, bind-Ensures, trivially}

-- How many entries an outcome tells of.
abbrev pub treated_in : StreamTickOutcome → ℕ
treated_in o = o.handled + o.failed + o.parked

-- Every entry that was read or reclaimed was handled, failed or was parked.
abbrev pub IsBalanced : StreamTickOutcome → Type 0
IsBalanced o = treated_in o ≡ o.read + o.reclaimed

treated_in-add_treated :
    (t : Treated) (o : StreamTickOutcome) → treated_in (add_treated t o) ≡ suc (treated_in o)
treated_in-add_treated was_handled o = omega arith
treated_in-add_treated was_failed o = omega arith
treated_in-add_treated was_parked o = omega arith

module _ {S V : Type 0} (commands : StreamCommands S) (host : Callbacks S V)
    (options : ResolvedOptions) where
  abbrev Always : Work S → Type 0
  Always w = Unit

  abbrev Counts : {A : Type 0} → Action S A → (A → Type 0) → Type 0
  Counts m Q = Ensures Always Always m (λ a w. Q a)

  call-Counts : {A : Type 0} (m : Action S A) → Ensures Always Always m (Any Always)
  call-Counts m w i p = (tt, trivially Always (m w).0 (m w).1)

  bind-Counts :
      {A B : Type 0} (Q : A → Type 0) (R : B → Type 0) (m : Action S A) (f : A → Action S B)
      → Counts m Q
      → ((a : A) → Q a → Counts (f a) R)
      → Counts (m >>= f) R
  bind-Counts Q R m f first next =
      bind-Ensures Always Always (λ a w. Q a) (λ b w. R b) m f first (λ a w i q. next a q w i tt)

  process_each-Counts :
      (entries : List StreamEntry) (counts : Map ℕ) (reclaimed : Bool)
      → Counts
          (process_each commands host options entries counts reclaimed)
          (λ o. treated_in o ≡ length entries)
  unfolding process_each
  process_each-Counts [] counts reclaimed = λ w i p. (tt, refl)
  process_each-Counts (entry ∷ entries) counts reclaimed =
      let rest = process_each commands host options entries counts reclaimed in
      let first =
        process_decoded commands host options entry (count_of entry.id counts) reclaimed
          (decode_envelope host.libraries entry) in
      bind-Counts (λ _. Unit) (λ o. treated_in o ≡ suc (length entries)) first
        (λ treated. rest >>= λ o. pure (add_treated treated o)) (call-Counts first)
        (λ treated _.
          bind-Counts (λ o. treated_in o ≡ length entries)
            (λ o. treated_in o ≡ suc (length entries)) rest (λ o. pure (add_treated treated o))
            (process_each-Counts entries counts reclaimed)
            (λ o e w i p. (tt, ground (arith, treated_in-add_treated treated o, e))))

  process_entries-Counts :
      (entries : List StreamEntry) (counts : Map ℕ) (reclaimed : Bool)
      → Counts (process_entries commands host options entries counts reclaimed) IsBalanced
  unfolding process_entries
  process_entries-Counts entries counts reclaimed =
      bind-Counts (λ o. treated_in o ≡ length entries) IsBalanced
        (process_each commands host options entries counts reclaimed)
        (λ o. pure (record o {
          read = if reclaimed then 0 else length entries;
          reclaimed = if reclaimed then length entries else 0;
        }))
        (process_each-Counts entries counts reclaimed) (λ o e w i p. (tt, ground (arith, e)))

  reclaim_pending-Counts :
      (ps : List PendingEntry) → Counts (reclaim_pending commands host options ps) IsBalanced
  unfolding reclaim_pending
  reclaim_pending-Counts [] = λ w i p. (tt, refl)
  reclaim_pending-Counts (p ∷ ps) =
      let claim = call (
        commands.claim options.key options.group options.consumer options.min_idle_ms
          (map (λ (e : PendingEntry). e.id) (p ∷ ps))) in
      bind-Counts (λ _. Unit) IsBalanced claim
        (λ claimed. process_entries commands host options claimed (delivery_counts (p ∷ ps)) true)
        (call-Counts claim)
        (λ claimed _. process_entries-Counts claimed (delivery_counts (p ∷ ps)) true)

  reclaim_if-Counts :
      (due : Bool)
      → Counts
          (if due then reclaim_stalled commands host options else pure empty_outcome)
          IsBalanced
  unfolding reclaim_stalled
  reclaim_if-Counts true =
      let ask = call (
        commands.pending_entries options.key options.group options.min_idle_ms
          options.claim_batch_size) in
      bind-Counts (λ _. Unit) IsBalanced ask
        (λ pending. reclaim_pending commands host options pending) (call-Counts ask)
        (λ pending _. reclaim_pending-Counts pending)
  reclaim_if-Counts false = λ w i p. (tt, refl)

  read-Counts :
      (before : StreamTickOutcome)
      → IsBalanced before
      → Counts
          (read_new commands host options >>= (λ es.
            process_entries commands host options es [] false
            >>= (λ o. pure (add_outcome before o))))
          IsBalanced
  read-Counts before balanced =
      bind-Counts (λ _. Unit) IsBalanced (read_new commands host options)
        (λ es.
          process_entries commands host options es [] false >>= (λ o. pure (add_outcome before o)))
        (call-Counts (read_new commands host options))
        (λ es _.
          bind-Counts IsBalanced IsBalanced (process_entries commands host options es [] false)
            (λ o. pure (add_outcome before o)) (process_entries-Counts es [] false)
            (λ o e w i p. (tt, omega arith)))

  -- A tick that is not rejected counts every entry that it read or reclaimed once, as handled, as failed
  -- or as parked.
  pub run_stream_tick-IsBalanced :
      (due : Bool) (w : Work S)
      → OfReply (λ o after. IsBalanced o) (run_stream_tick commands host options due w)
  unfolding run_stream_tick
  run_stream_tick-IsBalanced due w =
      (bind-Counts IsBalanced IsBalanced
        (if due then reclaim_stalled commands host options else pure empty_outcome)
        (λ before. read_new commands host options >>= (λ es.
          process_entries commands host options es [] false >>= (λ o. pure (add_outcome before o))))
        (reclaim_if-Counts due) read-Counts w tt tt).1
