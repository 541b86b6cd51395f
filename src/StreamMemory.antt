-- ===== src/StreamMemory.antt =====
-- src/redis/stream.memory.ts: the streams and their groups, over StreamGroup. The clock is an argument. The
-- wait of a read that finds nothing is left out. `none` is the error `NOGROUP`.
pub mod Histories
pub mod Handovers
pub mod Retention
pub mod Redelivery
pub mod Ordering
mod Tests
use boilerplate_express_ts.Prelude.{
  ℕ, zero, suc, ◌+◌, ◌-◌, Bool, true, false, not, ◌&&◌, ◌||◌, Option, none, some, List, [], ◌∷◌,
  ◌++◌, leb, ltb, ◌==◌, if◌then◌else◌, length, take, drop, Text, text_eq, print, read,
}
use boilerplate_express_ts.Prelude.Map
use boilerplate_express_ts.Prelude.Map.{Map}
use boilerplate_express_ts.StreamGroup.{
  StreamEntry, PendingRecord, PendingEntry, Group, dash, add, last_id, new_group, read_from_group,
  ack_in_group, claim_in_group, pending_in_group, delete_in_group, is_held_by,
}

pub record MemoryStream : Type 0 where
  pub streams : Map (List StreamEntry)
  pub groups : Map (Map Group)
  pub sequence : ℕ

abbrev pub empty : MemoryStream
empty = record { streams = []; groups = []; sequence = 0 }

abbrev pub or_empty {ℓ} : {A : Type ℓ} → Option (List A) → List A
or_empty none = []
or_empty (some xs) = xs

abbrev pub find_group : Text → Option (Map Group) → Option Group
find_group group none = none
find_group group (some by_group) = Map.get group by_group

-- `groups.get(key)?.get(group)`.
unfoldable pub get_group : Text → Text → MemoryStream → Option Group
get_group key group s = find_group group (Map.get key s.groups)

unfoldable pub put_group : Text → Text → Group → MemoryStream → MemoryStream
put_group key group g s = record s {
  groups = Map.put key (Map.put group g (or_empty (Map.get key s.groups))) s.groups;
}

abbrev pub entries : Text → MemoryStream → List StreamEntry
entries key s = or_empty (Map.get key s.streams)

pub data Created : Type 0 where
  created exists : Created

-- The stream and the map of its groups are there from here on.
abbrev pub with_stream : Text → MemoryStream → MemoryStream
with_stream key s = record s { streams = Map.put key (entries key s) s.streams }

-- `createGroup` once the stream is there.
unfoldable pub join_group :
    Text → Text → Bool → Option Group → MemoryStream → MemoryStream × Created
unfolding put_group
join_group key group from_end (some g) s = (s, exists)
join_group key group from_end none s =
    (put_group key group (new_group from_end (entries key s)) s, created)

unfoldable pub has_stream : Text → MemoryStream → Bool
has_stream key s = elim (Map.get key s.streams) [ none ↦ false | some es ↦ true ]

-- `none` is the refusal to make the stream; `from_end` is `from === '$'`.
unfoldable pub create_group :
    Text → Text → Bool → Bool → MemoryStream → Option (MemoryStream × Created)
unfolding get_group has_stream join_group
create_group key group from_end mkstream s =
    if has_stream key s
    then some (join_group key group from_end (get_group key group s) s)
    else if mkstream
    then some (join_group key group from_end (get_group key group s) (with_stream key s))
    else none

abbrev pub entry_id : ℕ → ℕ → Text
entry_id ms seq = print ms ++ dash ∷ print seq

-- What is left of a stream of at most `max_len` entries.
abbrev pub trim_to : Option ℕ → List StreamEntry → List StreamEntry
trim_to none es = es
trim_to (some max_len) es = drop (length es - max_len) es

unfoldable pub append : Text → Map Text → Option ℕ → ℕ → MemoryStream → MemoryStream × Text
append key fields max_len now s =
    let id = entry_id now (suc s.sequence) in
    let stored = entries key s ++ record { id = id; fields = fields } ∷ [] in
    (
      record s {
        sequence = suc s.sequence;
        streams = Map.put key (trim_to max_len stored) s.streams;
      },
      id,
    )

-- An operation on a group that has to be there.
abbrev pub with_group {ℓ} :
    {A : Type ℓ} → Text → Text → Option (Group × A) → MemoryStream → Option (MemoryStream × A)
with_group key group none s = none
with_group key group (some (g, answer)) s = some (put_group key group g s, answer)

abbrev pub on_group {ℓ} : {A : Type ℓ} → (Group → Group × A) → Option Group → Option (Group × A)
on_group f none = none
on_group f (some g) = some (f g)

unfoldable pub read_group :
    Text → Text → Text → ℕ → (ℕ → ℕ) → MemoryStream → Option (MemoryStream × List StreamEntry)
unfolding get_group put_group read_from_group
read_group key group consumer count clock s =
    with_group key group
      (on_group (read_from_group consumer count clock (entries key s)) (get_group key group s)) s

unfoldable pub ack : Text → Text → List Text → MemoryStream → Option (MemoryStream × ℕ)
unfolding get_group put_group ack_in_group
ack key group ids s = with_group key group (on_group (ack_in_group ids) (get_group key group s)) s

unfoldable pub claim :
    Text → Text → Text → ℕ → List Text → ℕ → MemoryStream → Option (MemoryStream × List StreamEntry)
unfolding get_group put_group claim_in_group
claim key group consumer min_idle_ms ids now s =
    with_group key group
      (on_group (claim_in_group consumer min_idle_ms ids now (entries key s))
        (get_group key group s))
      s

unfoldable pub pending_entries :
    Text → Text → ℕ → ℕ → Option Text → ℕ → MemoryStream → Option (List PendingEntry)
unfolding get_group pending_in_group
pending_entries key group min_idle_ms count start now s = elim (get_group key group s) [
  | none ↦ none
  | some g ↦ some (pending_in_group now min_idle_ms count start g)
]

unfoldable pub consumer_pending_count : Text → Text → Text → MemoryStream → ℕ
unfolding get_group
consumer_pending_count key group consumer s = elim (get_group key group s) [
  | none ↦ 0
  | some g ↦ Map.count_if (is_held_by consumer) g.pending
]

-- A group that is not there is no error here.
unfoldable pub delete_consumer : Text → Text → Text → MemoryStream → MemoryStream × ℕ
unfolding get_group put_group delete_in_group
delete_consumer key group consumer s = elim (get_group key group s) [
  | none ↦ (s, 0)
  | some g ↦ (put_group key group (delete_in_group consumer g).0 s, (delete_in_group consumer g).1)
]
