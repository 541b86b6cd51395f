-- ===== src/CacheStore/Tests.antt =====
-- The cache of responses at concrete inputs.
use boilerplate_express_ts.Prelude.{
  ◌≡◌, arith, refl, ℕ, some, none, List, [], ◌∷◌, codes, text_eq, text_eq_iff,
}
use boilerplate_express_ts.Prelude.Map
use boilerplate_express_ts.CacheStore.{CacheStore, get, set, evict_expired, evict_if_needed}
use boilerplate_express_ts.CacheStore.Bound.{Event, gets, sets, step, run}
use boilerplate_express_ts.CacheStore.Writes.{get-run}

abbrev empty : CacheStore ℕ
empty = record { entries = []; max_entries = 2 }

-- The first key is read before the third is written, so that the second is the one to go.
abbrev uses : List (Event ℕ)
uses =
    sets (codes "a") 1 100 0 0
    ∷ sets (codes "b") 2 100 1 1
    ∷ gets (codes "a") 2
    ∷ sets (codes "c") 3 100 3 3
    ∷ []

get_after_use : (get (codes "a") 4 (run empty uses)).1 ≡ some 1
unfolding run step get set evict_expired evict_if_needed Map.get Map.put Map.delete text_eq
get_after_use = refl

get_after_eviction : (get (codes "b") 4 (run empty uses)).1 ≡ none
unfolding run step get set evict_expired evict_if_needed Map.get Map.put Map.delete text_eq
get_after_eviction = refl

abbrev full : CacheStore ℕ
full = record {
  entries =
      (codes "a", record { value = 1; expires_at = 100 })
      ∷ (codes "b", record { value = 2; expires_at = 101 })
      ∷ (codes "c", record { value = 3; expires_at = 20 })
      ∷ [];
  max_entries = 3;
}

abbrev written : CacheStore ℕ
written = record {
  entries =
      (codes "b", record { value = 2; expires_at = 101 })
      ∷ (codes "c", record { value = 3; expires_at = 20 })
      ∷ (codes "d", record { value = 4; expires_at = 103 })
      ∷ [];
  max_entries = 3;
}

-- The other two entries are evicted for other values, and only then would it be the one to go.
abbrev later_uses : List (Event ℕ)
later_uses = sets (codes "e") 5 100 4 4 ∷ sets (codes "f") 6 100 5 30 ∷ []

get-run_example : (get (codes "d") 50 (run written later_uses)).1 ≡ some 4
unfolding set evict_expired evict_if_needed Map.put Map.delete text_eq
get-run_example =
    get-run (codes "d") 4 100 3 3 50 full written later_uses (omega arith) refl (omega arith)
      (
        (ground (arith, text_eq_iff (codes "e") (codes "d")), omega arith),
        ((ground (arith, text_eq_iff (codes "f") (codes "d")), omega arith), tt),
      )
      (omega arith)
