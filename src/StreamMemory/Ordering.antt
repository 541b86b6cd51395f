-- ===== src/StreamMemory/Ordering.antt =====
-- src/redis/stream.memory.ts: the ids of a stream whose clock does not go back, and what reads of it hand out.
use boilerplate_express_ts.Prelude.{
  ℕ, zero, suc, ◌-◌, ◌≤◌, ◌<◌, ◌≡◌, ◌≢◌, refl, ◌∙◌, inl, inr, Bool, true, Option, none, some, List,
  [], ◌∷◌, ◌++◌, length, take, drop, Text, text_eq, text_eq_iff, print, read-print, print-IsDigit,
  IsDigit, All, All-mono, All-append, arith, Bool-cases, Option-cases,
}
use boilerplate_express_ts.Prelude.Scan.{Lacks, split, split-append, split-Lacks}
use boilerplate_express_ts.Prelude.Map
use boilerplate_express_ts.Prelude.Map.{Map}
use boilerplate_express_ts.StreamGroup.{
  StreamEntry, Group, dash, halves, is_later, is_after, read_from_group,
}
use boilerplate_express_ts.StreamGroup.Deliveries.{IsOrdered, unread, read_from_group-take}
use boilerplate_express_ts.StreamMemory.{
  MemoryStream, empty, get_group, put_group, entries, with_stream, join_group, has_stream,
  create_group, entry_id, trim_to, append, with_group, read_group, ack, claim, delete_consumer,
}
use boilerplate_express_ts.StreamMemory.Histories.{
  Event, creates, appends, reads, acks, claims, deletes, step, after, answer_of, or_else,
}
use boilerplate_express_ts.StreamMemory.Retention.{entries-put}

digits_lack_dash : (n : ℕ) → Lacks dash (print n)
digits_lack_dash n =
    All-mono IsDigit (λ x. x ≢ dash) (print n) (λ x h same. ground (arith, h, same))
      (print-IsDigit n)

halves-entry_id : (ms seq : ℕ) → halves (split dash (entry_id ms seq)) ≡ (ms, seq)
unfolding halves
halves-entry_id ms seq =
    rw
      (
        split-append dash (print ms) (print seq) (digits_lack_dash ms),
        split-Lacks dash (print seq) (digits_lack_dash seq),
        read-print ms,
        read-print seq,
      )
      refl

is_after-entry_id : (m k n l : ℕ) → m ≤ n → k < l → is_after (entry_id n l) (entry_id m k) ≡ true
unfolding is_after is_later
is_after-entry_id m k n l h g = rw (halves-entry_id n l, halves-entry_id m k) (ground (arith, h, g))

-- The entry was appended at `t` or before, with a number up to `q`.
abbrev IsStamped : ℕ → ℕ → StreamEntry → Type 0
IsStamped t q e = (m : ℕ) × (k : ℕ) × (e.id ≡ entry_id m k) × (m ≤ t) × (k ≤ q)

All-drop : (P : StreamEntry → Type 0) (n : ℕ) (es : List StreamEntry) → All P es → All P (drop n es)
All-drop P zero es h = h
All-drop P (suc n) [] h = tt
All-drop P (suc n) (e ∷ es) h = All-drop P n es h.1

IsOrdered-drop : (n : ℕ) (es : List StreamEntry) → IsOrdered es → IsOrdered (drop n es)
IsOrdered-drop zero es h = h
IsOrdered-drop (suc n) [] h = tt
IsOrdered-drop (suc n) (e ∷ es) h = IsOrdered-drop n es h.1

IsOrdered-append :
    (es : List StreamEntry) (x : StreamEntry)
    → IsOrdered es
    → All (λ (e : StreamEntry). is_after x.id e.id ≡ true) es
    → IsOrdered (es ++ x ∷ [])
IsOrdered-append [] x h g = (tt, tt)
IsOrdered-append (e ∷ es) x h g = (
  All-append (λ (f : StreamEntry). is_after f.id e.id ≡ true) es (x ∷ []) h.0 (g.0, tt),
  IsOrdered-append es x h.1 g.1,
)

module _ (key : Text) where
  record IsTidy (t : ℕ) (s : MemoryStream) : Type 0 where
    ordered : IsOrdered (entries key s)
    stamped : All (IsStamped t s.sequence) (entries key s)

  with_group-IsTidy :
      {A : Type 0} (t : ℕ) (k h : Text) (o : Option (Group × A)) (s : MemoryStream)
      → IsTidy t s
      → IsTidy t (or_else s (with_group k h o s))
  unfolding put_group
  with_group-IsTidy t k h none s tidy = tidy
  with_group-IsTidy t k h (some (g, a)) s tidy = record {
    ordered = tidy.ordered;
    stamped = tidy.stamped;
  }

  join_group-IsTidy :
      (t : ℕ) (k h : Text) (from_end : Bool) (o : Option Group) (s : MemoryStream)
      → IsTidy t s
      → IsTidy t (join_group k h from_end o s).0
  unfolding join_group put_group
  join_group-IsTidy t k h from_end (some g) s tidy = tidy
  join_group-IsTidy t k h from_end none s tidy = record {
    ordered = tidy.ordered;
    stamped = tidy.stamped;
  }

  with_stream-entries :
      (k : Text) (s : MemoryStream) → entries key (with_stream k s) ≡ entries key s
  with_stream-entries k s =
      rw (entries-put key key key k (entries k s) s) (elim (Bool-cases (text_eq k key)) [
        | inr other ↦ rw other refl
        | inl same ↦ let this : k ≡ key = (text_eq_iff k key).0 same in rw (same, this) refl
      ])

  with_stream-IsTidy :
      (t : ℕ) (k : Text) (s : MemoryStream) → IsTidy t s → IsTidy t (with_stream k s)
  with_stream-IsTidy t k s tidy = record {
    ordered = rw (with_stream-entries k s) tidy.ordered;
    stamped = rw (with_stream-entries k s) tidy.stamped;
  }

  create_group-IsTidy :
      (t : ℕ) (k h : Text) (from_end mkstream : Bool) (s : MemoryStream)
      → IsTidy t s
      → IsTidy t (or_else s (create_group k h from_end mkstream s))
  unfolding create_group
  create_group-IsTidy t k h from_end mkstream s tidy = elim (Bool-cases (has_stream k s)) [
    | inl there ↦
        rw (there, create_group) (join_group-IsTidy t k h from_end (get_group k h s) s tidy)
    | inr missing ↦ elim (Bool-cases mkstream) [
      | inl make ↦
          rw (missing, make, create_group)
            (join_group-IsTidy t k h from_end (get_group k h s) (with_stream k s)
              (with_stream-IsTidy t k s tidy))
      | inr refuse ↦ rw (missing, refuse, create_group) tidy
    ]
  ]

  delete_consumer-IsTidy :
      (t : ℕ) (k h consumer : Text) (s : MemoryStream)
      → IsTidy t s
      → IsTidy t (delete_consumer k h consumer s).0
  unfolding delete_consumer put_group
  delete_consumer-IsTidy t k h consumer s tidy = elim (Option-cases (get_group k h s)) [
    | inl e ↦ rw (e, delete_consumer) tidy
    | inr (g, e) ↦
        rw (e, delete_consumer) (record { ordered = tidy.ordered; stamped = tidy.stamped })
  ]

  weaken :
      (t q now : ℕ) (es : List StreamEntry)
      → t ≤ now
      → All (IsStamped t q) es
      → All (IsStamped now (suc q)) es
  weaken t q now es le all =
      All-mono (IsStamped t q) (IsStamped now (suc q)) es
        (λ e (m, k, id, early, low). (m, k, id, omega (arith, early, le), omega (arith, low))) all

  trim_to-IsOrdered :
      (max_len : Option ℕ) (es : List StreamEntry) → IsOrdered es → IsOrdered (trim_to max_len es)
  trim_to-IsOrdered none es h = h
  trim_to-IsOrdered (some max_len) es h = IsOrdered-drop (length es - max_len) es h

  trim_to-All :
      (P : StreamEntry → Type 0) (max_len : Option ℕ) (es : List StreamEntry)
      → All P es
      → All P (trim_to max_len es)
  trim_to-All P none es h = h
  trim_to-All P (some max_len) es h = All-drop P (length es - max_len) es h

  -- An entry appended at `now` comes after those that are there.
  newest :
      (t q now : ℕ) (es : List StreamEntry)
      → t ≤ now
      → All (IsStamped t q) es
      → All (λ (e : StreamEntry). is_after (entry_id now (suc q)) e.id ≡ true) es
  newest t q now es le all =
      All-mono (IsStamped t q) (λ (e : StreamEntry). is_after (entry_id now (suc q)) e.id ≡ true) es
        (λ e (m, k, id, early, low).
          rw id (is_after-entry_id m k now (suc q) (omega (arith, early, le)) (omega (arith, low))))
        all

  append-IsTidy :
      (t : ℕ) (k : Text) (fields : Map Text) (max_len : Option ℕ) (now : ℕ) (s : MemoryStream)
      → t ≤ now
      → IsTidy t s
      → IsTidy now (append k fields max_len now s).0
  unfolding append
  append-IsTidy t k fields max_len now s le tidy =
      let x : StreamEntry = record { id = entry_id now (suc s.sequence); fields = fields } in
      let same = entries-put key key key k (trim_to max_len (entries k s ++ x ∷ [])) s in
      let old = weaken t s.sequence now (entries key s) le tidy.stamped in
      elim (Bool-cases (text_eq k key)) [
        | inr other ↦ record {
          ordered = rw (same, other) tidy.ordered;
          stamped = rw (same, other) old;
        }
        | inl here ↦
            let this : k ≡ key = (text_eq_iff k key).0 here in
            record {
              ordered =
                  rw (same, here, this)
                    (trim_to-IsOrdered max_len (entries key s ++ x ∷ []) (
                      IsOrdered-append (entries key s) x tidy.ordered
                        (newest t s.sequence now (entries key s) le tidy.stamped)));
              stamped =
                  rw (same, here, this)
                    (trim_to-All (IsStamped now (suc s.sequence)) max_len (entries key s ++ x ∷ [])
                      (All-append (IsStamped now (suc s.sequence)) (entries key s) (x ∷ []) old
                        ((now, suc s.sequence, refl, omega arith, omega arith), tt)));
            }
      ]

  -- The clock of the appends, over an event.
  abbrev pub clock_after : ℕ → Event → ℕ
  clock_after t (appends k fields max_len now) = now
  clock_after t _ = t

  step-IsTidy :
      (t : ℕ) (e : Event) (s : MemoryStream)
      → t ≤ clock_after t e
      → IsTidy t s
      → IsTidy (clock_after t e) (step s e)
  unfolding step read_group ack claim
  step-IsTidy t (creates k h from_end mkstream) s le tidy =
      create_group-IsTidy t k h from_end mkstream s tidy
  step-IsTidy t (appends k fields max_len now) s le tidy =
      append-IsTidy t k fields max_len now s le tidy
  step-IsTidy t (reads k h consumer count clock) s le tidy = with_group-IsTidy t k h _ s tidy
  step-IsTidy t (acks k h ids) s le tidy = with_group-IsTidy t k h _ s tidy
  step-IsTidy t (claims k h consumer min_idle_ms ids now) s le tidy =
      with_group-IsTidy t k h _ s tidy
  step-IsTidy t (deletes k h consumer) s le tidy = delete_consumer-IsTidy t k h consumer s tidy

  -- The clock of the appends does not go back.
  abbrev pub IsClocked : ℕ → List Event → Type 0
  IsClocked t [] = Unit
  IsClocked t (e ∷ es) = (t ≤ clock_after t e) × IsClocked (clock_after t e) es

  after-IsOrdered :
      (t : ℕ) (es : List Event) (s : MemoryStream)
      → IsClocked t es
      → IsTidy t s
      → IsOrdered (entries key (after s es))
  unfolding after
  after-IsOrdered t [] s clocked tidy = tidy.ordered
  after-IsOrdered t (e ∷ es) s clocked tidy =
      after-IsOrdered (clock_after t e) es (step s e) clocked.1 (step-IsTidy t e s clocked.0 tidy)

  read_of :
      (group consumer : Text) (count : ℕ) (clock : ℕ → ℕ) (s : MemoryStream) (g : Group)
      → get_group key group s ≡ some g
      → answer_of (read_group key group consumer count clock s)
        ≡ (read_from_group consumer count clock (entries key s) g).1
  unfolding read_group
  read_of group consumer count clock s g here = rw here refl

  -- In a store that started empty, after any history in which the clock of the appends did not go back, a
  -- read hands out the first entries of the stream that the cursor of the group is before, as many as it
  -- asks for: it leaves none out.
  pub read_group-take :
      (es : List Event) (group consumer : Text) (count : ℕ) (clock : ℕ → ℕ) (g : Group)
      → IsClocked 0 es
      → get_group key group (after empty es) ≡ some g
      → answer_of (read_group key group consumer count clock (after empty es))
        ≡ take count (unread g.cursor (entries key (after empty es)))
  unfolding Map.get
  read_group-take es group consumer count clock g clocked here =
      let ordered = after-IsOrdered 0 es empty clocked (record { ordered = tt; stamped = tt }) in
      read_of group consumer count clock (after empty es) g here
      ∙ read_from_group-take consumer count clock (entries key (after empty es)) g ordered
