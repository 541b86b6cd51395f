-- ===== src/StreamGroup.antt =====
-- src/redis/stream.memory.ts, one consumer group, with the types of src/redis/stream.types.ts: the
-- loops of its operations over the entries of a stream and over the group's pending list. The cursor is
-- `none` where the source has `''`, which is no entry's id. `read_from_group` reads the clock for every
-- entry that it hands out.
pub mod Deliveries
pub mod Claims
pub mod Retention
use boilerplate_express_ts.Prelude.{
  ℕ, zero, suc, ◌+◌, ◌-◌, Bool, true, false, not, ◌&&◌, ◌||◌, Option, none, some, List, [], ◌∷◌,
  ◌++◌, leb, ltb, ◌==◌, if◌then◌else◌, length, take, drop, Text, text_eq, print, read,
}
use boilerplate_express_ts.Prelude.Scan.{split}
use boilerplate_express_ts.Prelude.Map
use boilerplate_express_ts.Prelude.Map.{Map}

pub record StreamEntry : Type 0 where
  pub id : Text
  pub fields : Map Text

pub record PendingRecord : Type 0 where
  pub consumer : Text
  pub delivered_at : ℕ
  pub delivery_count : ℕ

pub record PendingEntry : Type 0 where
  pub id : Text
  pub consumer : Text
  pub idle_ms : ℕ
  pub delivery_count : ℕ

pub record Group : Type 0 where
  pub cursor : Option Text
  pub pending : Map PendingRecord
  pub consumers : List Text

abbrev pub dash : ℕ
dash = 45

-- The two halves of an id, `0` where one is missing.
unfoldable pub halves : List Text → ℕ × ℕ
halves [] = (0, 0)
halves (ms ∷ []) = (read ms, 0)
halves (ms ∷ (seq ∷ _)) = (read ms, read seq)

-- `compareEntryIds(a, b) > 0`.
unfoldable pub is_later : ℕ × ℕ → ℕ × ℕ → Bool
is_later (a_ms, a_seq) (b_ms, b_seq) = ltb b_ms a_ms || (a_ms == b_ms && ltb b_seq a_seq)

unfoldable pub is_after : Text → Text → Bool
unfolding halves is_later
is_after a b = is_later (halves (split dash a)) (halves (split dash b))

-- `a > b` on strings.
unfoldable pub text_gt : Text → Text → Bool
text_gt [] b = false
text_gt (x ∷ a) [] = true
text_gt (x ∷ a) (y ∷ b) = ltb y x || (x == y && text_gt a b)

-- `Set.add`.
unfoldable pub add : Text → List Text → List Text
add x [] = x ∷ []
add x (y ∷ ys) = let rest = add x ys in if text_eq y x then y ∷ ys else y ∷ rest

abbrev pub last_id : List StreamEntry → Option Text
last_id [] = none
last_id (e ∷ []) = some e.id
last_id (_ ∷ (e ∷ es)) = last_id (e ∷ es)

abbrev pub new_group : Bool → List StreamEntry → Group
new_group from_end es = record {
  cursor = if from_end then last_id es else none;
  pending = [];
  consumers = [];
}

-- The entry is behind no cursor.
abbrev pub is_new : Text → Option Text → Bool
is_new id none = true
is_new id (some cursor) = is_after id cursor

pub record Read : Type 0 where
  pub delivered : List StreamEntry
  pub cursor : Option Text
  pub pending : Map PendingRecord

-- The loop of `readGroupSync`; `n` entries were handed out, and `clock n` is the next reading.
unfoldable pub deliver :
    Text → ℕ → (ℕ → ℕ) → ℕ → List StreamEntry → Option Text → Map PendingRecord → Read
deliver consumer count clock n [] cursor pending = record {
  delivered = [];
  cursor = cursor;
  pending = pending;
}
deliver consumer count clock n (e ∷ es) cursor pending =
    let skipped = deliver consumer count clock n es cursor pending in
    let handed : PendingRecord = record {
      consumer = consumer;
      delivered_at = clock n;
      delivery_count = 1;
    } in
    let more = deliver consumer count clock (suc n) es (some e.id) (Map.put e.id handed pending) in
    if leb count n
    then record { delivered = []; cursor = cursor; pending = pending }
    else if is_new e.id cursor
    then record more { delivered = e ∷ more.delivered }
    else skipped

unfoldable pub read_from_group :
    Text → ℕ → (ℕ → ℕ) → List StreamEntry → Group → Group × List StreamEntry
unfolding deliver
read_from_group consumer count clock es g =
    let r = deliver consumer count clock 0 es g.cursor g.pending in
    (
      record { cursor = r.cursor; pending = r.pending; consumers = add consumer g.consumers },
      r.delivered,
    )

abbrev pub is_pending : Option PendingRecord → Bool
is_pending none = false
is_pending (some _) = true

-- The ids are forgotten, and those that were pending counted.
unfoldable pub ack_each : List Text → Map PendingRecord → Map PendingRecord × ℕ
ack_each [] pending = (pending, 0)
ack_each (id ∷ ids) pending =
    let (rest, removed) = ack_each ids (Map.delete id pending) in
    (rest, (if is_pending (Map.get id pending) then 1 else 0) + removed)

unfoldable pub find_entry : Text → List StreamEntry → Option StreamEntry
find_entry id [] = none
find_entry id (e ∷ es) = let rest = find_entry id es in if text_eq e.id id then some e else rest

-- Whether the idle floor is reached.
abbrev pub is_idle : ℕ → ℕ → PendingRecord → Bool
is_idle now min_idle_ms held = leb (held.delivered_at + min_idle_ms) now

-- The part of the loop of `claim` for one id: the entry, when it is claimed.
unfoldable pub claim_one :
    Text
    → ℕ
    → ℕ
    → Text
    → Option PendingRecord
    → Option StreamEntry
    → Map PendingRecord
    → Map PendingRecord × Option StreamEntry
claim_one consumer min_idle_ms now id none found pending = (pending, none)
claim_one consumer min_idle_ms now id (some held) none pending =
    if is_idle now min_idle_ms held then (Map.delete id pending, none) else (pending, none)
claim_one consumer min_idle_ms now id (some held) (some e) pending =
    if is_idle now min_idle_ms held
    then (
      Map.put id
          (record {
            consumer = consumer;
            delivered_at = now;
            delivery_count = suc held.delivery_count;
          })
          pending,
      some e,
    )
    else (pending, none)

abbrev pub cons_some {ℓ} : {A : Type ℓ} → Option A → List A → List A
cons_some none xs = xs
cons_some (some x) xs = x ∷ xs

unfoldable pub claim_each :
    Text
    → ℕ
    → ℕ
    → List StreamEntry
    → List Text
    → Map PendingRecord
    → Map PendingRecord × List StreamEntry
unfolding find_entry claim_one
claim_each consumer min_idle_ms now es [] pending = (pending, [])
claim_each consumer min_idle_ms now es (id ∷ ids) pending =
    let (next, one) =
      claim_one consumer min_idle_ms now id (Map.get id pending) (find_entry id es) pending in
    let (rest, more) = claim_each consumer min_idle_ms now es ids next in (rest, cons_some one more)

-- `ack` of a group.
unfoldable pub ack_in_group : List Text → Group → Group × ℕ
unfolding ack_each
ack_in_group ids g =
    let (pending, removed) = ack_each ids g.pending in (record g { pending = pending }, removed)

unfoldable pub claim_in_group :
    Text → ℕ → List Text → ℕ → List StreamEntry → Group → Group × List StreamEntry
unfolding claim_each
claim_in_group consumer min_idle_ms ids now es g =
    let (pending, claimed) = claim_each consumer min_idle_ms now es ids g.pending in
    (record g { pending = pending; consumers = add consumer g.consumers }, claimed)

abbrev pub entry_of : ℕ → Text → PendingRecord → PendingEntry
entry_of now id held = record {
  id = id;
  consumer = held.consumer;
  idle_ms = now - held.delivered_at;
  delivery_count = held.delivery_count;
}

-- Whether a page that starts after `start` has the id: the source compares the texts.
abbrev pub is_on_page : Option Text → Text → Bool
is_on_page none id = true
is_on_page (some start) id = text_gt id start

-- The sort of the matching entries, which is stable.
unfoldable pub insert : PendingEntry → List PendingEntry → List PendingEntry
insert e [] = e ∷ []
insert e (f ∷ fs) = let rest = insert e fs in if is_after e.id f.id then f ∷ rest else e ∷ (f ∷ fs)

unfoldable pub matching : ℕ → ℕ → Option Text → Map PendingRecord → List PendingEntry
unfolding insert
matching now min_idle_ms start [] = []
matching now min_idle_ms start ((id, held) ∷ more) =
    let rest = matching now min_idle_ms start more in
    if is_idle now min_idle_ms held && is_on_page start id
    then insert (entry_of now id held) rest
    else rest

unfoldable pub pending_in_group : ℕ → ℕ → ℕ → Option Text → Group → List PendingEntry
unfolding matching
pending_in_group now min_idle_ms count start g =
    take count (matching now min_idle_ms start g.pending)

abbrev pub is_held_by : Text → PendingRecord → Bool
is_held_by consumer held = text_eq held.consumer consumer

-- `Set.delete`.
unfoldable pub discard : Text → List Text → List Text
discard x [] = []
discard x (y ∷ ys) = let rest = discard x ys in if text_eq y x then rest else y ∷ rest

unfoldable pub delete_in_group : Text → Group → Group × ℕ
unfolding discard
delete_in_group consumer g = (
  record g {
    pending = Map.delete_if (is_held_by consumer) g.pending;
    consumers = discard consumer g.consumers;
  },
  Map.count_if (is_held_by consumer) g.pending,
)
