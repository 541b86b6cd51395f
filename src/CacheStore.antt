-- ===== src/CacheStore.antt =====
-- src/lib/route-decorators/cache-store.ts: the in-process store of cached responses, least recently used
-- first. Values are opaque, and the development-time freeze of a value is left out. The clock is an
-- argument, one for each call of `now()`.
pub mod Bound
pub mod Writes
mod Tests
use boilerplate_express_ts.Prelude.{
  ℕ, ◌+◌, ◌-◌, ◌≤◌, Bool, true, false, Option, none, some, List, [], ◌∷◌, leb, ltb, ◌==◌,
  if◌then◌else◌, length, drop, Text,
}
use boilerplate_express_ts.Prelude.Map
use boilerplate_express_ts.Prelude.Map.{Map}

pub record StoredEntry (V : Type 0) : Type 0 where
  pub value : V
  pub expires_at : ℕ

pub record CacheStore (V : Type 0) : Type 0 where
  pub entries : Map (StoredEntry V)
  pub max_entries : ℕ

module _ {V : Type 0} where
  -- `none` is a `RangeError` of the constructor.
  unfoldable pub create : ℕ → Option (CacheStore V)
  create max_entries =
      if ltb max_entries 1 then none else some (record { entries = []; max_entries = max_entries })

  abbrev pub is_live : ℕ → StoredEntry V → Bool
  is_live now e = ltb now e.expires_at

  unfoldable pub size : ℕ → CacheStore V → ℕ
  size now s = Map.count_if (is_live now) s.entries

  -- A hit goes to the tail of the Map.
  unfoldable pub get : Text → ℕ → CacheStore V → CacheStore V × Option V
  get key now s = elim (Map.get key s.entries) [
    | none ↦ (s, none)
    | some e ↦
        if leb e.expires_at now
        then (record s { entries = Map.delete key s.entries }, none)
        else (record s { entries = Map.put key e (Map.delete key s.entries) }, some e.value)
  ]

  -- The first loop of `evictIfNeeded`: expired entries go while there are too many; `n` is the size of
  -- the Map.
  unfoldable pub evict_expired : ℕ → ℕ → ℕ → Map (StoredEntry V) → Map (StoredEntry V)
  evict_expired max_entries now n [] = []
  evict_expired max_entries now n ((k, e) ∷ m) =
      let dropped = evict_expired max_entries now (n - 1) m in
      let kept = evict_expired max_entries now n m in
      if leb n max_entries
      then (k, e) ∷ m
      else if leb e.expires_at now
      then dropped
      else (k, e) ∷ kept

  -- The second loop: the oldest entries go.
  abbrev pub evict_oldest : ℕ → Map (StoredEntry V) → Map (StoredEntry V)
  evict_oldest max_entries m = drop (length m - max_entries) m

  unfoldable pub evict_if_needed : ℕ → ℕ → Map (StoredEntry V) → Map (StoredEntry V)
  evict_if_needed max_entries now m =
      if leb (length m) max_entries
      then m
      else evict_oldest max_entries (evict_expired max_entries now (length m) m)

  -- `none` is a `RangeError`. `evict_now` is the reading of `evictIfNeeded`.
  unfoldable pub set : Text → V → ℕ → ℕ → ℕ → CacheStore V → Option (CacheStore V)
  set key value ttl_ms now evict_now s =
      if ltb ttl_ms 1
      then none
      else some (record s {
        entries = evict_if_needed s.max_entries evict_now (
            Map.put key (record { value = value; expires_at = now + ttl_ms })
              (Map.delete key s.entries));
      })

  unfoldable pub delete : Text → CacheStore V → CacheStore V
  delete key s = record s { entries = Map.delete key s.entries }

  unfoldable pub clear : CacheStore V → CacheStore V
  clear s = record s { entries = [] }
