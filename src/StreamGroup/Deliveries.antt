-- ===== src/StreamGroup/Deliveries.antt =====
-- src/redis/stream.memory.ts: what reads of a group hand out, in the order of ids.
use boilerplate_express_ts.Prelude.{
  ℕ, zero, suc, ◌-◌, ◌≡◌, refl, ap, ◌∙◌, inl, inr, true, Option, none, some, List, [], ◌∷◌, ◌++◌,
  leb, if◌then◌else◌, take, Text, All, All-mono, arith, Bool-cases,
}
use boilerplate_express_ts.Prelude.Scan.{split}
use boilerplate_express_ts.Prelude.Map
use boilerplate_express_ts.Prelude.Map.{Map}
use boilerplate_express_ts.StreamGroup.{
  StreamEntry, PendingRecord, Group, dash, halves, is_later, is_after, is_new, deliver,
  read_from_group,
}

later_trans : (a b c : ℕ × ℕ) → is_later a b ≡ true → is_later b c ≡ true → is_later a c ≡ true
unfolding is_later
later_trans (a, b) (c, d) (e, f) h g = ground (arith, h, g)

pub is_after_trans :
    (a b c : Text) → is_after a b ≡ true → is_after b c ≡ true → is_after a c ≡ true
unfolding is_after
is_after_trans a b c h g =
    later_trans (halves (split dash a)) (halves (split dash b)) (halves (split dash c)) h g

-- Each entry is after the cursor that those before it have left.
abbrev pub IsRising : Option Text → List StreamEntry → Type 0
IsRising cursor [] = Unit
IsRising cursor (e ∷ es) = (is_new e.id cursor ≡ true) × IsRising (some e.id) es

abbrev pub cursor_after : Option Text → List StreamEntry → Option Text
cursor_after cursor [] = cursor
cursor_after cursor (e ∷ es) = cursor_after (some e.id) es

-- Each entry has an id after those before it.
abbrev pub IsOrdered : List StreamEntry → Type 0
IsOrdered [] = Unit
IsOrdered (e ∷ es) = All (λ f. is_after f.id e.id ≡ true) es × IsOrdered es

pub IsRising-append :
    (cursor : Option Text) (xs ys : List StreamEntry)
    → IsRising cursor xs
    → IsRising (cursor_after cursor xs) ys
    → IsRising cursor (xs ++ ys)
IsRising-append cursor [] ys h g = g
IsRising-append cursor (e ∷ xs) ys h g = (h.0, IsRising-append (some e.id) xs ys h.1 g)

rising_after :
    (id : Text) (es : List StreamEntry)
    → IsRising (some id) es
    → All (λ f. is_after f.id id ≡ true) es
rising_after id [] h = tt
rising_after id (e ∷ es) h = (
  h.0,
  All-mono (λ f. is_after f.id e.id ≡ true) (λ f. is_after f.id id ≡ true) es
      (λ f later. is_after_trans f.id e.id id later h.0) (rising_after e.id es h.1),
)

pub IsRising-IsOrdered :
    (cursor : Option Text) (es : List StreamEntry) → IsRising cursor es → IsOrdered es
IsRising-IsOrdered cursor [] h = tt
IsRising-IsOrdered cursor (e ∷ es) h =
    (rising_after e.id es h.1, IsRising-IsOrdered (some e.id) es h.1)

nothing_taken : (n : ℕ) → [] ≡ take {A = StreamEntry} n []
nothing_taken zero = refl
nothing_taken (suc n) = refl

-- The entries that a cursor is before.
abbrev pub unread : Option Text → List StreamEntry → List StreamEntry
unread cursor [] = []
unread cursor (e ∷ es) = if is_new e.id cursor then e ∷ unread cursor es else unread cursor es

is_new_trans :
    (a b : Text) (cursor : Option Text)
    → is_after a b ≡ true
    → is_new b cursor ≡ true
    → is_new a cursor ≡ true
is_new_trans a b none h g = refl
is_new_trans a b (some c) h g = is_after_trans a b c h g

unread_whole :
    (cursor : Option Text) (es : List StreamEntry)
    → All (λ f. is_new f.id cursor ≡ true) es
    → unread cursor es ≡ es
unread_whole cursor [] h = refl
unread_whole cursor (e ∷ es) h = rw h.0 (ap (λ more. e ∷ more) (unread_whole cursor es h.1))

chain-IsRising :
    (id : Text) (es : List StreamEntry)
    → All (λ f. is_after f.id id ≡ true) es
    → IsOrdered es
    → IsRising (some id) es
chain-IsRising id [] h g = tt
chain-IsRising id (e ∷ es) h g = (h.0, chain-IsRising e.id es g.0 g.1)

module _ (consumer : Text) (count : ℕ) (clock : ℕ → ℕ) where
  deliver-IsRising :
      (n : ℕ) (es : List StreamEntry) (cursor : Option Text) (pending : Map PendingRecord)
      → IsRising cursor (deliver consumer count clock n es cursor pending).delivered
        × ((deliver consumer count clock n es cursor pending).cursor
            ≡ cursor_after cursor (deliver consumer count clock n es cursor pending).delivered)
  unfolding deliver
  deliver-IsRising n [] cursor pending = (tt, refl)
  deliver-IsRising n (e ∷ es) cursor pending = elim (Bool-cases (leb count n)) [
    | inl full ↦ rw full (tt, refl)
    | inr room ↦ elim (Bool-cases (is_new e.id cursor)) [
      | inr old ↦ rw (room, old) (deliver-IsRising n es cursor pending)
      | inl new ↦
          let handed : PendingRecord = record {
            consumer = consumer;
            delivered_at = clock n;
            delivery_count = 1;
          } in
          let (rises, ends) =
            deliver-IsRising (suc n) es (some e.id) (Map.put e.id handed pending) in
          rw (room, new) ((new, rises), ends)
    ]
  ]

  pub read_from_group-IsRising :
      (es : List StreamEntry) (g : Group)
      → IsRising g.cursor (read_from_group consumer count clock es g).1
        × ((read_from_group consumer count clock es g).0.cursor
            ≡ cursor_after g.cursor (read_from_group consumer count clock es g).1)
  unfolding read_from_group
  read_from_group-IsRising es g = deliver-IsRising 0 es g.cursor g.pending

  -- With a cursor that is before all the entries, the first of them are handed out.
  deliver_all :
      (n : ℕ) (es : List StreamEntry) (cursor : Option Text) (pending : Map PendingRecord)
      → IsRising cursor es
      → (deliver consumer count clock n es cursor pending).delivered ≡ take (count - n) es
  unfolding deliver
  deliver_all n [] cursor pending h = nothing_taken (count - n)
  deliver_all n (e ∷ es) cursor pending h = elim (Bool-cases (leb count n)) [
    | inl full ↦ let nothing : count - n ≡ 0 = ground (arith, full) in rw (full, nothing) refl
    | inr room ↦
        let handed : PendingRecord = record {
          consumer = consumer;
          delivered_at = clock n;
          delivery_count = 1;
        } in
        let one : count - n ≡ suc (count - suc n) = ground (arith, room) in
        rw (room, h.0, one)
          (ap (λ more. e ∷ more)
            (deliver_all (suc n) es (some e.id) (Map.put e.id handed pending) h.1))
  ]

  deliver-take :
      (n : ℕ) (es : List StreamEntry) (cursor : Option Text) (pending : Map PendingRecord)
      → IsOrdered es
      → (deliver consumer count clock n es cursor pending).delivered
        ≡ take (count - n) (unread cursor es)
  unfolding deliver
  deliver-take n [] cursor pending h = nothing_taken (count - n)
  deliver-take n (e ∷ es) cursor pending h = elim (Bool-cases (leb count n)) [
    | inl full ↦ let nothing : count - n ≡ 0 = ground (arith, full) in rw (full, nothing) refl
    | inr room ↦ elim (Bool-cases (is_new e.id cursor)) [
      | inr old ↦ rw (room, old) (deliver-take n es cursor pending h.1)
      | inl new ↦
          let handed : PendingRecord = record {
            consumer = consumer;
            delivered_at = clock n;
            delivery_count = 1;
          } in
          let one : count - n ≡ suc (count - suc n) = ground (arith, room) in
          let all_new = unread_whole cursor es (
            All-mono (λ f. is_after f.id e.id ≡ true) (λ f. is_new f.id cursor ≡ true) es
              (λ f later. is_new_trans f.id e.id cursor later new) h.0) in
          rw (room, new, one, all_new)
            (ap (λ more. e ∷ more)
              (deliver_all (suc n) es (some e.id) (Map.put e.id handed pending)
                (chain-IsRising e.id es h.0 h.1)))
    ]
  ]

  -- Of a stream in the order of ids, a read hands out the first entries that the cursor is before, as
  -- many as it asks for.
  pub read_from_group-take :
      (es : List StreamEntry) (g : Group)
      → IsOrdered es
      → (read_from_group consumer count clock es g).1 ≡ take count (unread g.cursor es)
  unfolding read_from_group
  read_from_group-take es g h =
      let whole : count - 0 ≡ count = omega arith in
      deliver-take 0 es g.cursor g.pending h ∙ ap (λ n. take n (unread g.cursor es)) whole
