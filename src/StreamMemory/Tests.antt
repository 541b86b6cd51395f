-- ===== src/StreamMemory/Tests.antt =====
-- Runs of the streams at concrete inputs.
use boilerplate_express_ts.Prelude.{
  ◌≡◌, ◌≢◌, refl, true, false, none, some, take, List, [], ◌∷◌, map, All, arith, Text, codes,
  text_eq, print, read,
}
use boilerplate_express_ts.Prelude.Scan.{split}
use boilerplate_express_ts.Prelude.Map
use boilerplate_express_ts.StreamGroup.{
  StreamEntry, Group, add, halves, is_later, is_after, text_gt, deliver, read_from_group,
  find_entry, claim_one, claim_each, claim_in_group,
}
use boilerplate_express_ts.StreamGroup.Deliveries.{IsOrdered, unread}
use boilerplate_express_ts.StreamGroup.Claims.{IsWithout}
use boilerplate_express_ts.StreamMemory.{
  MemoryStream, empty, entries, get_group, put_group, has_stream, join_group, create_group, append,
  read_group, claim,
}
use boilerplate_express_ts.StreamMemory.Histories.{
  Event, after, creates, appends, reads, acks, step, handed, all_handed, all_handed-IsOrdered,
  answer_of, or_else,
}
use boilerplate_express_ts.StreamMemory.Handovers.{claim-claim}
use boilerplate_express_ts.StreamMemory.Retention.{all_spare}
use boilerplate_express_ts.StreamMemory.Ordering.{read_group-take}
use boilerplate_express_ts.StreamMemory.Redelivery.{MayClaim, read_group-MayClaim}

abbrev orders : Text
orders = codes "orders"

abbrev mailers : Text
mailers = codes "mailers"

-- Two entries for two consumers, and an entry that comes in between.
abbrev morning : List Event
morning =
    creates orders mailers false true
    ∷ appends orders [] none 100
    ∷ appends orders [] none 100
    ∷ reads orders mailers (codes "a") 1 (λ n. 110)
    ∷ appends orders [] none 120
    ∷ reads orders mailers (codes "b") 5 (λ n. 130)
    ∷ []

morning_ids :
    map (λ (e : StreamEntry). e.id) (all_handed orders mailers empty morning)
    ≡ codes "100-1" ∷ codes "100-2" ∷ codes "120-3" ∷ []
unfolding all_handed step handed create_group append read_group get_group put_group has_stream
    join_group read_from_group deliver add is_after halves is_later split print read Map.get Map.put
    text_eq
morning_ids = refl

-- The texts of ids are not in the order of the ids.
page_gap : text_gt (codes "1-10") (codes "1-9") ≡ false
unfolding text_gt
page_gap = refl

page_order : is_after (codes "1-10") (codes "1-9") ≡ true
unfolding is_after halves is_later split read
page_order = refl

-- An entry that is appended after the clock went back is behind the cursor, and is never read.
abbrev set_back : List Event
set_back =
    creates orders mailers false true
    ∷ appends orders [] none 100
    ∷ reads orders mailers (codes "a") 5 (λ n. 110)
    ∷ appends orders [] none 50
    ∷ reads orders mailers (codes "a") 5 (λ n. 120)
    ∷ []

set_back_ids :
    map (λ (e : StreamEntry). e.id) (all_handed orders mailers empty set_back) ≡ codes "100-1" ∷ []
unfolding all_handed step handed create_group append read_group get_group put_group has_stream
    join_group read_from_group deliver add is_after halves is_later split print read Map.get Map.put
    text_eq
set_back_ids = refl

all_handed-IsOrdered_example : IsOrdered (all_handed orders mailers empty morning)
all_handed-IsOrdered_example = all_handed-IsOrdered orders mailers morning empty

abbrev noon : MemoryStream
noon = after empty morning

abbrev stale : List Text
stale = codes "100-1" ∷ codes "120-3" ∷ []

claimed_at_noon :
    map (λ (e : StreamEntry). e.id) (answer_of (claim orders mailers (codes "c") 80 stale 200 noon))
    ≡ codes "100-1" ∷ []
unfolding after step create_group append read_group get_group put_group has_stream join_group
    read_from_group deliver add is_after halves is_later split print read Map.get Map.put text_eq
    claim claim_in_group claim_each claim_one find_entry
claimed_at_noon = refl

claim-claim_example :
    All
      (λ (e : StreamEntry). IsWithout e.id (
        answer_of (
          claim orders mailers
            (codes "d")
            80
            stale
            205
            (or_else noon (claim orders mailers (codes "c") 80 stale 200 noon)))))
      (answer_of (claim orders mailers (codes "c") 80 stale 200 noon))
claim-claim_example =
    claim-claim orders mailers (codes "c") (codes "d") 80 80 200 205 stale stale noon (omega arith)

abbrev first_entry : Text
first_entry = codes "100-1"

-- Consumer `a` reads the entry and is gone; `b` reads on and acknowledges what it read.
abbrev published : MemoryStream
published = after empty (creates orders mailers false true ∷ appends orders [] none 100 ∷ [])

abbrev afternoon : List Event
afternoon =
    appends orders [] none 120
    ∷ reads orders mailers (codes "b") 5 (λ n. 130)
    ∷ acks orders mailers (codes "120-2" ∷ [])
    ∷ []

read_first :
    find_entry first_entry
      (answer_of (read_group orders mailers (codes "a") 1 (λ n. 110) published))
    ≢ none
unfolding after step create_group append read_group get_group put_group has_stream join_group
    read_from_group deliver add is_after halves is_later split print read Map.get Map.put text_eq
    find_entry
read_first = λ bad. cc

nothing_lost : all_spare orders mailers first_entry afternoon ≡ true
unfolding text_eq
nothing_lost = refl

read_group-MayClaim_example : MayClaim orders mailers (codes "b") first_entry 80 200 (
    after
      (or_else published (read_group orders mailers (codes "a") 1 (λ n. 110) published))
      afternoon)
read_group-MayClaim_example =
    read_group-MayClaim orders mailers (codes "a") (codes "b") first_entry 1 80 200 (λ n. 110)
      afternoon published read_first nothing_lost

-- A group that has read the first of three entries.
abbrev backlog : List Event
backlog =
    creates orders mailers false true
    ∷ appends orders [] none 9
    ∷ reads orders mailers (codes "a") 1 (λ n. 9)
    ∷ appends orders [] none 9
    ∷ appends orders [] none 10
    ∷ []

abbrev reader : Group
reader = record {
  cursor = some (codes "9-1");
  pending =
      (codes "9-1", record { consumer = codes "a"; delivered_at = 9; delivery_count = 1 }) ∷ [];
  consumers = codes "a" ∷ [];
}

reader_found : get_group orders mailers (after empty backlog) ≡ some reader
unfolding after step create_group append read_group get_group put_group has_stream join_group
    read_from_group deliver add is_after halves is_later split print read Map.get Map.put text_eq
reader_found = refl

read_group-take_example :
    answer_of (read_group orders mailers (codes "b") 5 (λ n. 20) (after empty backlog))
    ≡ take 5 (unread (some (codes "9-1")) (entries orders (after empty backlog)))
read_group-take_example =
    read_group-take orders backlog mailers (codes "b") 5 (λ n. 20) reader
      (omega arith, (omega arith, (omega arith, (omega arith, (omega arith, tt))))) reader_found
