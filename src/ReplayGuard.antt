-- ===== src/ReplayGuard.antt =====
-- src/webhooks/replay-guard.ts. A nonce is a text, and the clock an argument, read once by `remember`.
pub mod Window
pub mod Decisions
mod Tests
use boilerplate_express_ts.Prelude.{
  ℕ, Bool, true, false, Option, none, some, [], leb, ltb, ◌==◌, if◌then◌else◌, length, Text,
}
use boilerplate_express_ts.Prelude.Map
use boilerplate_express_ts.Prelude.Map.{Map}

pub data ReplayDecision : Type 0 where
  accepted replayed cache_full : ReplayDecision

pub record MemoryReplayGuard : Type 0 where
  -- The nonces, each with the time at which it may be forgotten.
  pub seen : Map ℕ
  pub max_entries : ℕ

-- `none` is a `RangeError`.
unfoldable pub create : ℕ → Option MemoryReplayGuard
create max_entries =
    if max_entries == 0 then none else some (record { seen = []; max_entries = max_entries })

abbrev pub is_stale : ℕ → ℕ → Bool
is_stale now expires_at = leb expires_at now

unfoldable pub sweep : ℕ → MemoryReplayGuard → MemoryReplayGuard
sweep now g = record g { seen = Map.delete_if (is_stale now) g.seen }

abbrev pub is_full : MemoryReplayGuard → Bool
is_full g = leb g.max_entries (length g.seen)

abbrev pub record_key : Text → ℕ → MemoryReplayGuard → MemoryReplayGuard × ReplayDecision
record_key key expires_at g = (record g { seen = Map.put key expires_at g.seen }, accepted)

-- What follows when the key is not held.
unfoldable pub admit : Text → ℕ → ℕ → MemoryReplayGuard → MemoryReplayGuard × ReplayDecision
unfolding sweep
admit key expires_at now g =
    if is_full g
    then if is_full (sweep now g)
      then (sweep now g, cache_full)
      else record_key key expires_at (sweep now g)
    else record_key key expires_at g

-- The helper takes what is held under the key.
unfoldable pub judge :
    Text → ℕ → ℕ → Option ℕ → MemoryReplayGuard → MemoryReplayGuard × ReplayDecision
unfolding admit
judge key expires_at now none g = admit key expires_at now g
judge key expires_at now (some held) g =
    if ltb now held
    then (g, replayed)
    else admit key expires_at now (record g { seen = Map.delete key g.seen })

unfoldable pub remember : Text → ℕ → ℕ → MemoryReplayGuard → MemoryReplayGuard × ReplayDecision
unfolding judge
remember key expires_at now g = judge key expires_at now (Map.get key g.seen) g

unfoldable pub size : MemoryReplayGuard → ℕ
size g = length g.seen
