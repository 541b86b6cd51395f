-- ===== src/StreamMemory/Handovers.antt =====
-- src/redis/stream.memory.ts: two claims of one group of the store.
use boilerplate_express_ts.Prelude.{
  ℕ, ◌+◌, ◌<◌, ◌≡◌, inl, inr, some, List, Text, text_eq_iff, All, arith, Option-cases,
}
use boilerplate_express_ts.StreamGroup.{StreamEntry, Group, claim_in_group}
use boilerplate_express_ts.StreamGroup.Claims.{IsWithout, claims_divide}
use boilerplate_express_ts.StreamMemory.{MemoryStream, get_group, put_group, entries, claim}
use boilerplate_express_ts.StreamMemory.Histories.{answer_of, or_else, get_group-put_group}

pub get_group-put_self :
    (key group : Text) (g : Group) (s : MemoryStream)
    → get_group key group (put_group key group g s) ≡ some g
get_group-put_self key group g s = ground (
  arith,
  get_group-put_group key group key group g s,
  text_eq_iff key key,
  text_eq_iff group group,
)

-- When two consumers claim in turn, the second before the idle floor that it asks for is reached since
-- the first, no entry that the first was handed is handed to the second, whichever ids they name. A group
-- that is not there hands out nothing.
pub claim-claim :
    (key group first second : Text) (min_first min_second now later : ℕ) (ids more_ids : List Text)
    (s : MemoryStream)
    → later < now + min_second
    → All
        (λ (e : StreamEntry). IsWithout e.id (
          answer_of (
            claim key group second min_second more_ids later
              (or_else s (claim key group first min_first ids now s)))))
        (answer_of (claim key group first min_first ids now s))
unfolding claim put_group
claim-claim key group first second min_first min_second now later ids more_ids s early =
    elim (Option-cases (get_group key group s)) [
      | inl e ↦ rw e tt
      | inr (g, e) ↦
          let r = claim_in_group first min_first ids now (entries key s) g in
          rw (e, get_group-put_self key group r.0 s)
            (claims_divide first second min_first min_second now later ids more_ids (entries key s)
              (entries key s) g early)
    ]
