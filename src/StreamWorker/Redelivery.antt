-- ===== src/StreamWorker/Redelivery.antt =====
-- src/redis/stream.worker.ts over src/redis/stream.memory.ts: what another consumer may take over.
use boilerplate_express_ts.Prelude.{ℕ, ◌≡◌, ◌⊎◌, inl, inr, true, List, [], Text, All, All-mono}
use boilerplate_express_ts.StreamGroup.Retention.{mentions}
use boilerplate_express_ts.StreamMemory.Redelivery.{MayClaim, outstanding-MayClaim}
use boilerplate_express_ts.StreamWorker.{Callbacks, ResolvedOptions, Work}
use boilerplate_express_ts.StreamWorker.Loop.{Event, WorkerState, run}
use boilerplate_express_ts.StreamWorker.Laws.{LeavesPending, IsAccounted}
use boilerplate_express_ts.StreamWorker.Memory.{Server, memory_commands}
use boilerplate_express_ts.StreamWorker.Outstanding.{Kept, memory_commands-KeepsPending}
use boilerplate_express_ts.StreamWorker.Runs.{run-IsAccounted}

abbrev pub untouched : Server → Work Server
untouched s = record { server = s; handed = []; settled = [] }

-- Every entry that was handed out was handled or parked, or a consumer may claim it.
abbrev pub IsRecoverable : ResolvedOptions → Text → ℕ → ℕ → Work Server → Type 0
IsRecoverable options claimer min_idle_ms now w =
    All
      (λ id.
        MayClaim options.key options.group claimer id min_idle_ms now w.server.memory
        ⊎ (mentions id w.settled ≡ true))
      w.handed

accounted-IsRecoverable :
    (options : ResolvedOptions) (claimer : Text) (min_idle_ms now : ℕ) (w : Work Server)
    → IsAccounted (Kept options.key options.group) w
    → IsRecoverable options claimer min_idle_ms now w
accounted-IsRecoverable options claimer min_idle_ms now w =
    All-mono (λ id. Kept options.key options.group id w.server ⊎ (mentions id w.settled ≡ true))
      (λ id.
        MayClaim options.key options.group claimer id min_idle_ms now w.server.memory
        ⊎ (mentions id w.settled ≡ true))
      w.handed
      (λ id h. elim h [
        | inr settled ↦ inr settled
        | inl kept ↦ inl (
            outstanding-MayClaim options.key options.group claimer id min_idle_ms now
              w.server.memory kept)
      ])

module _ {V : Type 0} (host : Callbacks Server V) (options : ResolvedOptions)
    (leaves : LeavesPending host Kept) where
  -- Over the streams in memory, after any life of a worker that was handed nothing before, with any errors
  -- of its handler and of the parking lot: every entry that one of its reads handed out was handled in
  -- time or parked, or any consumer's claim of it hands it out, unless the idle floor that the claim asks
  -- for is not reached since it was last handed out. The handler and the parking lot do not touch the
  -- pending list.
  pub run-IsRecoverable :
      (claimer : Text) (min_idle_ms now : ℕ) (es : List Event) (worker : WorkerState) (s : Server)
      → IsRecoverable options claimer min_idle_ms now
          (run memory_commands host options es (worker, untouched s)).1
  run-IsRecoverable claimer min_idle_ms now es worker s =
      accounted-IsRecoverable options claimer min_idle_ms now
        (run memory_commands host options es (worker, untouched s)).1
        (run-IsAccounted memory_commands host options Kept memory_commands-KeepsPending leaves es
          worker (untouched s) tt)
