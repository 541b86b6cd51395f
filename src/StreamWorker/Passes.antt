-- ===== src/StreamWorker/Passes.antt =====
-- src/redis/stream.worker.ts: the entries that a worker was handed, over a pass.
use boilerplate_express_ts.Prelude.{
  ℕ, ◌≡◌, ◌⊎◌, inl, Bool, true, false, List, [], ◌∷◌, map, if◌then◌else◌, Text, All-mono,
  All-append, All-map,
}
use boilerplate_express_ts.Prelude.Map.{Map}
use boilerplate_express_ts.StreamGroup.{StreamEntry, PendingEntry}
use boilerplate_express_ts.StreamGroup.Retention.{mentions}
use boilerplate_express_ts.StreamWorker.{
  Reply, ok, error, StreamCommands, Callbacks, empty_outcome, add_outcome, ResolvedOptions, Work,
  pure, ◌>>=◌, ◌>>◌, call, note_handed,
}
use boilerplate_express_ts.StreamWorker.Ticks.{
  delivery_counts, process_entries, reclaim_pending, reclaim_stalled, read_new, run_stream_tick,
  ensure_group,
}
use boilerplate_express_ts.StreamWorker.Triples.{Ensures, Any, bind-Ensures, trivially}
use boilerplate_express_ts.StreamWorker.Laws.{OfEntries, KeepsPending, LeavesPending, IsAccounted}
use boilerplate_express_ts.StreamWorker.Accounts

module _ {S V : Type 0} (commands : StreamCommands S) (host : Callbacks S V)
    (options : ResolvedOptions) (Kept : Text → Text → Text → S → Type 0)
    (laws : KeepsPending commands Kept) (leaves : LeavesPending host Kept) where
  abbrev Pending : Text → S → Type 0
  Pending = Kept options.key options.group

  abbrev Safe : Work S → Type 0
  Safe = IsAccounted Pending

  abbrev Always : Work S → Type 0
  Always w = Unit

  call-Ensures :
      {A : Type 0} (f : S → S × Reply A)
      → ((id : Text) (s : S) → Pending id s → Pending id (f s).0)
      → Ensures Safe Always (call f) (Any Safe)
  call-Ensures f keeps = Accounts.call-Ensures commands host options Kept laws leaves Always f keeps

  process_entries-Ensures :
      (entries : List StreamEntry) (counts : Map ℕ) (reclaimed : Bool)
      → Ensures Safe Always
          (process_entries commands host options entries counts reclaimed)
          (Any Safe)
  process_entries-Ensures = Accounts.process_entries-Ensures commands host options Kept laws leaves

  reclaim_pending-Ensures :
      (ps : List PendingEntry)
      → Ensures Safe Always (reclaim_pending commands host options ps) (Any Safe)
  unfolding reclaim_pending
  reclaim_pending-Ensures [] = λ w safe p. (safe, tt)
  reclaim_pending-Ensures (p ∷ ps) =
      let ids = map (λ (e : PendingEntry). e.id) (p ∷ ps) in
      bind-Ensures Safe Always (Any Safe) (Any Safe)
        (call (commands.claim options.key options.group options.consumer options.min_idle_ms ids))
        (λ claimed. process_entries commands host options claimed (delivery_counts (p ∷ ps)) true)
        (call-Ensures
          (commands.claim options.key options.group options.consumer options.min_idle_ms ids)
          (λ id s kept.
            laws.claim options.key options.group options.consumer id options.min_idle_ms ids s
              kept))
        (λ claimed. process_entries-Ensures claimed (delivery_counts (p ∷ ps)) true)

  reclaim_stalled-Ensures : Ensures Safe Always (reclaim_stalled commands host options) (Any Safe)
  unfolding reclaim_stalled
  reclaim_stalled-Ensures =
      bind-Ensures Safe Always (Any Safe) (Any Safe)
        (call (
          commands.pending_entries options.key options.group options.min_idle_ms
            options.claim_batch_size))
        (λ pending. reclaim_pending commands host options pending)
        (call-Ensures
          (commands.pending_entries options.key options.group options.min_idle_ms
            options.claim_batch_size)
          (λ id s kept.
            laws.pending_entries options.key options.group id options.min_idle_ms
              options.claim_batch_size s kept))
        reclaim_pending-Ensures

  noted :
      (w : Work S) (r : S × Reply (List StreamEntry))
      → Safe (record w { server = r.0 })
      → OfEntries Pending r
      → Safe
          (((λ (v : Work S). (record w { server = r.0 }, r.1))
              >>= (λ es. note_handed es >> pure es))
            w).0
  noted w (s, ok es) safe all =
      let Accounted : Text → Type 0 = λ id. Pending id s ⊎ (mentions id w.settled ≡ true) in
      let ids = map (λ (e : StreamEntry). e.id) es in
      All-append Accounted ids w.handed
        (All-map Accounted (λ (e : StreamEntry). e.id) es
          (All-mono (λ (e : StreamEntry). Pending e.id s) (λ (e : StreamEntry). Accounted e.id) es
            (λ e kept. inl kept) all))
        safe
  noted w (s, error e) safe all = safe

  read_new-Ensures : Ensures Safe Always (read_new commands host options) (Any Safe)
  unfolding read_new
  read_new-Ensures w safe p =
      let ask =
        commands.read_group options.key options.group options.consumer options.batch_size
          options.block_ms in
      let after = read_new commands host options w in
      (
        noted w (ask w.server)
            (Accounts.server-Safe commands host options Kept laws leaves (ask w.server).0 w
              (λ id kept.
                laws.read_group options.key options.group options.consumer id options.batch_size
                  options.block_ms w.server kept)
              safe)
            (laws.handed options.key options.group options.consumer options.batch_size
              options.block_ms w.server),
        trivially Safe after.0 after.1,
      )

  reclaim_if :
      (due : Bool)
      → Ensures Safe Always
          (if due then reclaim_stalled commands host options else pure empty_outcome)
          (Any Safe)
  reclaim_if true = reclaim_stalled-Ensures
  reclaim_if false = λ w safe p. (safe, tt)

  pub run_stream_tick-Ensures :
      (due : Bool) → Ensures Safe Always (run_stream_tick commands host options due) (Any Safe)
  unfolding run_stream_tick
  run_stream_tick-Ensures due =
      bind-Ensures Safe Always (Any Safe) (Any Safe)
        (if due then reclaim_stalled commands host options else pure empty_outcome)
        (λ before. read_new commands host options >>= (λ es.
          process_entries commands host options es [] false >>= (λ o. pure (add_outcome before o))))
        (reclaim_if due)
        (λ before.
          bind-Ensures Safe Always (Any Safe) (Any Safe) (read_new commands host options)
            (λ es.
              process_entries commands host options es [] false
              >>= (λ o. pure (add_outcome before o)))
            read_new-Ensures
            (λ es.
              bind-Ensures Safe Always (Any Safe) (Any Safe)
                (process_entries commands host options es [] false)
                (λ o. pure (add_outcome before o)) (process_entries-Ensures es [] false)
                (λ o w safe p. (safe, tt))))

  pub ensure_group-Ensures : Ensures Safe Always (ensure_group commands host options) (Any Safe)
  unfolding ensure_group
  ensure_group-Ensures =
      call-Ensures (commands.create_group options.key options.group true true)
        (λ id s kept. laws.create_group options.key options.group id true true s kept)
