-- ===== src/StreamMemory/Redelivery.antt =====
-- src/redis/stream.memory.ts: the claim of an entry that was read.
use boilerplate_express_ts.Prelude.{
  ℕ, suc, ◌+◌, ◌<◌, ◌≡◌, ◌≢◌, ◌⊎◌, refl, sym, subst, inl, inr, true, Option, none, some, List, [],
  ◌∷◌, leb, Text, text_eq, text_eq_iff, All, All-mono, arith, Bool-cases, Option-cases,
}
use boilerplate_express_ts.Prelude.Map
use boilerplate_express_ts.Prelude.Map.{Map}
use boilerplate_express_ts.StreamGroup.{
  StreamEntry, PendingRecord, Group, is_new, is_idle, find_entry, claim_one, claim_each,
  claim_in_group, deliver, read_from_group,
}
use boilerplate_express_ts.StreamGroup.Claims.{find_entry-id}
use boilerplate_express_ts.StreamGroup.Retention.{is_held, deliver-All}
use boilerplate_express_ts.StreamMemory.{
  MemoryStream, get_group, put_group, entries, with_group, on_group, read_group, claim,
}
use boilerplate_express_ts.StreamMemory.Histories.{Event, after, answer_of, or_else}
use boilerplate_express_ts.StreamMemory.Handovers.{get_group-put_self}
use boilerplate_express_ts.StreamMemory.Retention.{
  holds_in, all_spare, IsOutstanding, after-IsOutstanding,
}

find_entry-All :
    (Q : Text → Type 0) (id : Text) (es : List StreamEntry)
    → All (λ (e : StreamEntry). Q e.id) es
    → find_entry id es ≢ none
    → Q id
unfolding find_entry
find_entry-All Q id [] all h = absurd (h refl)
find_entry-All Q id (e ∷ es) all h = elim (Bool-cases (text_eq e.id id)) [
  | inl same ↦ subst Q ((text_eq_iff e.id id).0 same) all.0
  | inr other ↦ find_entry-All Q id es all.1 (λ gone. h (ground (arith, other, gone)))
]

pub find_entry-cons :
    (id : Text) (e : StreamEntry) (es : List StreamEntry)
    → find_entry id es ≢ none
    → find_entry id (e ∷ es) ≢ none
unfolding find_entry
find_entry-cons id e es h = elim (Bool-cases (text_eq e.id id)) [
  | inl same ↦ rw same (λ bad. cc)
  | inr other ↦ rw other h
]

pub find_entry-head : (e : StreamEntry) (es : List StreamEntry) → find_entry e.id (e ∷ es) ≢ none
unfolding find_entry
find_entry-head e es bad = ground (arith, bad, text_eq_iff e.id e.id)

-- A read hands out entries of the stream.
deliver-stored :
    (consumer : Text) (count : ℕ) (clock : ℕ → ℕ) (n : ℕ) (es : List StreamEntry)
    (cursor : Option Text) (pending : Map PendingRecord)
    → All
        (λ (e : StreamEntry). find_entry e.id es ≢ none)
        (deliver consumer count clock n es cursor pending).delivered
unfolding deliver
deliver-stored consumer count clock n [] cursor pending = tt
deliver-stored consumer count clock n (e ∷ es) cursor pending =
    let widen : (more : List StreamEntry)
        → All (λ (f : StreamEntry). find_entry f.id es ≢ none) more
        → All (λ (f : StreamEntry). find_entry f.id (e ∷ es) ≢ none) more =
      λ more all.
        All-mono (λ (f : StreamEntry). find_entry f.id es ≢ none)
          (λ (f : StreamEntry). find_entry f.id (e ∷ es) ≢ none) more
          (λ f h. find_entry-cons f.id e es h) all in
    elim (Bool-cases (leb count n)) [
      | inl full ↦ rw full tt
      | inr room ↦ elim (Bool-cases (is_new e.id cursor)) [
        | inr old ↦
            rw (room, old)
              (widen (deliver consumer count clock n es cursor pending).delivered
                (deliver-stored consumer count clock n es cursor pending))
        | inl new ↦
            let handed : PendingRecord = record {
              consumer = consumer;
              delivered_at = clock n;
              delivery_count = 1;
            } in
            let next = Map.put e.id handed pending in
            rw (room, new)
              (
                find_entry-head e es,
                widen (deliver consumer count clock (suc n) es (some e.id) next).delivered
                    (deliver-stored consumer count clock (suc n) es (some e.id) next),
              )
      ]
    ]

pub handed-IsOutstanding :
    (key group consumer id : Text) (count : ℕ) (clock : ℕ → ℕ) (o : Option Group) (s : MemoryStream)
    → find_entry id (
        answer_of (
          with_group key group
            (on_group (read_from_group consumer count clock (entries key s)) o)
            s))
      ≢ none
    → IsOutstanding key group id (
        or_else s (
          with_group key group
            (on_group (read_from_group consumer count clock (entries key s)) o)
            s))
unfolding find_entry read_from_group put_group
handed-IsOutstanding key group consumer id count clock none s h = absurd (h refl)
handed-IsOutstanding key group consumer id count clock (some g) s h =
    let r = deliver consumer count clock 0 (entries key s) g.cursor g.pending in
    let next = (read_from_group consumer count clock (entries key s) g).0 in
    record {
      stored =
          find_entry-All (λ j. find_entry j (entries key s) ≢ none) id r.delivered
            (deliver-stored consumer count clock 0 (entries key s) g.cursor g.pending) h;
      held =
          subst (λ o. holds_in id o ≡ true) (sym (get_group-put_self key group next s))
            (find_entry-All (λ j. is_held j r.pending ≡ true) id r.delivered
              (deliver-All consumer count clock 0 (entries key s) g.cursor g.pending) h);
    }

-- What is kept of the delivery of an entry to a group.
abbrev pub record_of : Text → Option Group → Option PendingRecord
record_of id none = none
record_of id (some g) = Map.get id g.pending

-- The entry is handed out, or its floor is not reached.
abbrev pub MayClaim : Text → Text → Text → Text → ℕ → ℕ → MemoryStream → Type 0
MayClaim key group consumer id min_idle_ms now s =
    (held : PendingRecord) × (e : StreamEntry) × (record_of id (get_group key group s) ≡ some held)
    × (e.id ≡ id)
    × ((now < held.delivered_at + min_idle_ms)
        ⊎ (answer_of (claim key group consumer min_idle_ms (id ∷ []) now s) ≡ e ∷ []))

claim-found :
    (key group consumer id : Text) (min_idle_ms now : ℕ) (s : MemoryStream) (g : Group)
    (held : PendingRecord) (e : StreamEntry)
    → get_group key group s ≡ some g
    → Map.get id g.pending ≡ some held
    → find_entry id (entries key s) ≡ some e
    → MayClaim key group consumer id min_idle_ms now s
unfolding claim claim_in_group claim_each claim_one
claim-found key group consumer id min_idle_ms now s g held e here pends stored = (
  held,
  e,
  rw here pends,
  find_entry-id id (entries key s) e stored,
  elim (Bool-cases (is_idle now min_idle_ms held)) [
    | inr floor ↦ inl (ground (arith, floor))
    | inl idle ↦ inr (rw (here, pends, stored, idle) refl)
  ],
)

pub outstanding-MayClaim :
    (key group consumer id : Text) (min_idle_ms now : ℕ) (s : MemoryStream)
    → IsOutstanding key group id s
    → MayClaim key group consumer id min_idle_ms now s
outstanding-MayClaim key group consumer id min_idle_ms now s kept =
    elim (Option-cases (find_entry id (entries key s))) [
      | inl gone ↦ absurd (kept.stored gone)
      | inr (e, stored) ↦ elim (Option-cases (get_group key group s)) [
        | inl absent ↦ absurd (ground (arith, kept.held, absent))
        | inr (g, here) ↦ elim (Option-cases (Map.get id g.pending)) [
          | inl unheld ↦ absurd (ground (arith, kept.held, here, unheld))
          | inr (held, pends) ↦
              claim-found key group consumer id min_idle_ms now s g held e here pends stored
        ]
      ]
    ]

-- After a read that handed out an entry, and any history in which the group did not acknowledge it, none
-- of the group's consumers was removed and the stream was not trimmed, the entry is still on the group's
-- pending list, and any consumer's claim of it hands it out, unless the idle floor that the claim asks
-- for is not reached since the entry was last handed out.
pub read_group-MayClaim :
    (key group reader claimer id : Text) (count min_idle_ms now : ℕ) (clock : ℕ → ℕ)
    (es : List Event) (s : MemoryStream)
    → find_entry id (answer_of (read_group key group reader count clock s)) ≢ none
    → all_spare key group id es ≡ true
    → MayClaim key group claimer id min_idle_ms now
        (after (or_else s (read_group key group reader count clock s)) es)
unfolding read_group
read_group-MayClaim key group reader claimer id count min_idle_ms now clock es s h safe =
    let first = or_else s (read_group key group reader count clock s) in
    outstanding-MayClaim key group claimer id min_idle_ms now (after first es) (
      after-IsOutstanding key group id es first safe
        (handed-IsOutstanding key group reader id count clock (get_group key group s) s h))
