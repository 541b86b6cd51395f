-- ===== src/StreamMemory/Retention.antt =====
-- src/redis/stream.memory.ts over a history: an entry on the pending list of a group.
use boilerplate_express_ts.Prelude.{
  ℕ, suc, ◌≡◌, ◌≢◌, refl, sym, subst, inl, inr, Bool, true, false, not, ◌&&◌, Option, none, some,
  List, [], ◌∷◌, ◌++◌, if◌then◌else◌, Text, text_eq, text_eq_iff, arith, Bool-cases,
}
use boilerplate_express_ts.Prelude.Map
use boilerplate_express_ts.Prelude.Map.{Map}
use boilerplate_express_ts.StreamGroup.{
  StreamEntry, Group, find_entry, read_from_group, ack_in_group, claim_in_group, delete_in_group,
  new_group,
}
use boilerplate_express_ts.StreamGroup.Retention.{
  mentions, is_held, ack_each-held, deliver-held, claim_each-held,
}
use boilerplate_express_ts.StreamMemory.{
  MemoryStream, or_empty, get_group, put_group, entries, with_stream, join_group, has_stream,
  create_group, entry_id, trim_to, append, with_group, on_group, read_group, ack, claim,
  delete_consumer,
}
use boilerplate_express_ts.StreamMemory.Histories.{
  Event, creates, appends, reads, acks, claims, deletes, step, after, or_else, get_group-put_group,
}

abbrev pub is_some {ℓ} : {A : Type ℓ} → Option A → Bool
is_some none = false
is_some (some _) = true

abbrev pub holds_in : Text → Option Group → Bool
holds_in id none = false
holds_in id (some g) = is_held id g.pending

module _ (key group id : Text) where
  -- The event neither acknowledges the entry, nor removes a consumer of its group, nor trims its stream.
  abbrev pub spares : Event → Bool
  spares (acks k h ids) = not (text_eq k key && (text_eq h group && mentions id ids))
  spares (deletes k h consumer) = not (text_eq k key && text_eq h group)
  spares (appends k fields max_len now) = not (text_eq k key && is_some max_len)
  spares _ = true

  abbrev pub all_spare : List Event → Bool
  all_spare [] = true
  all_spare (e ∷ es) = spares e && all_spare es

  -- The entry is stored, and on the pending list of the group.
  pub record IsOutstanding (s : MemoryStream) : Type 0 where
    pub stored : find_entry id (entries key s) ≢ none
    pub held : holds_in id (get_group key group s) ≡ true

  -- An operation on a group keeps what is held, when it does so on this group.
  held_on :
      {A : Type 0} (k h : Text) (f : Group → Group × A) (o : Option Group) (s : MemoryStream)
      → get_group k h s ≡ o
      → ((g : Group)
          → text_eq k key && text_eq h group ≡ true
          → is_held id g.pending ≡ true
          → is_held id (f g).0.pending ≡ true)
      → holds_in id (get_group key group s) ≡ true
      → holds_in id (get_group key group (or_else s (with_group k h (on_group f o) s))) ≡ true
  held_on k h f none s here keeps held = held
  held_on k h f (some g) s here keeps held =
      let moved = get_group-put_group k h key group (f g).0 s in
      elim (Bool-cases (text_eq k key && text_eq h group)) [
        | inr other ↦ rw (moved, other) held
        | inl same ↦
            let this : k ≡ key = (text_eq_iff k key).0 (ground (arith, same)) in
            let that : h ≡ group = (text_eq_iff h group).0 (ground (arith, same)) in
            let found : get_group key group s ≡ some g = rw (← this, ← that) here in
            rw (moved, same) (keeps g same (subst (λ o. holds_in id o ≡ true) found held))
      ]

  pub with_group-IsOutstanding :
      {A : Type 0} (k h : Text) (f : Group → Group × A) (o : Option Group) (s : MemoryStream)
      → get_group k h s ≡ o
      → ((g : Group)
          → text_eq k key && text_eq h group ≡ true
          → is_held id g.pending ≡ true
          → is_held id (f g).0.pending ≡ true)
      → IsOutstanding s
      → IsOutstanding (or_else s (with_group k h (on_group f o) s))
  unfolding put_group
  with_group-IsOutstanding k h f none s here keeps kept = kept
  with_group-IsOutstanding k h f (some g) s here keeps kept = record {
    stored = kept.stored;
    held = held_on k h f (some g) s here keeps kept.held;
  }

  join_group-held :
      (k h : Text) (from_end : Bool) (o : Option Group) (s : MemoryStream)
      → get_group k h s ≡ o
      → holds_in id (get_group key group s) ≡ true
      → holds_in id (get_group key group (join_group k h from_end o s).0) ≡ true
  unfolding join_group
  join_group-held k h from_end (some g) s here held = held
  join_group-held k h from_end none s here held =
      let g = new_group from_end (entries k s) in
      let moved = get_group-put_group k h key group g s in
      elim (Bool-cases (text_eq k key && text_eq h group)) [
        | inr other ↦ rw (moved, other) held
        | inl same ↦
            let this : k ≡ key = (text_eq_iff k key).0 (ground (arith, same)) in
            let that : h ≡ group = (text_eq_iff h group).0 (ground (arith, same)) in
            let absent : get_group key group s ≡ none = rw (← this, ← that) here in
            absurd (ground (arith, held, absent))
      ]

  -- What is appended does not hide an entry.
  find_entry-append :
      (es more : List StreamEntry) → find_entry id es ≢ none → find_entry id (es ++ more) ≢ none
  unfolding find_entry
  find_entry-append [] more h = absurd (h refl)
  find_entry-append (e ∷ es) more h = elim (Bool-cases (text_eq e.id id)) [
    | inl same ↦ rw same (λ bad. cc)
    | inr other ↦ rw other (find_entry-append es more (λ gone. h (ground (arith, other, gone))))
  ]

  pub entries-put :
      (k : Text) (es : List StreamEntry) (s : MemoryStream)
      → or_empty (Map.get key (Map.put k es s.streams))
        ≡ (if text_eq k key then es else entries key s)
  entries-put k es s = elim (Bool-cases (text_eq k key)) [
    | inl same ↦ rw (Map.get-put k key es s.streams, same) refl
    | inr other ↦ rw (Map.get-put k key es s.streams, other) refl
  ]

  append-stored :
      (k : Text) (fields : Map Text) (max_len : Option ℕ) (now : ℕ) (s : MemoryStream)
      → spares (appends k fields max_len now) ≡ true
      → find_entry id (entries key s) ≢ none
      → find_entry id (entries key (append k fields max_len now s).0) ≢ none
  unfolding append
  append-stored k fields (some max_len) now s safe stored =
      let other : text_eq k key ≡ false = ground (arith, safe) in
      let e : StreamEntry = record { id = entry_id now (suc s.sequence); fields = fields } in
      let same = entries-put k (trim_to (some max_len) (entries k s ++ e ∷ [])) s in
      rw (same, other) stored
  append-stored k fields none now s safe stored =
      let e : StreamEntry = record { id = entry_id now (suc s.sequence); fields = fields } in
      let same = entries-put k (entries k s ++ e ∷ []) s in
      elim (Bool-cases (text_eq k key)) [
        | inr other ↦ rw (same, other) stored
        | inl here ↦
            let this : k ≡ key = (text_eq_iff k key).0 here in
            rw (same, here, this) (find_entry-append (entries key s) (e ∷ []) stored)
      ]

  join_group-streams :
      (k h : Text) (from_end : Bool) (o : Option Group) (s : MemoryStream)
      → (join_group k h from_end o s).0.streams ≡ s.streams
  unfolding join_group put_group
  join_group-streams k h from_end none s = refl
  join_group-streams k h from_end (some g) s = refl

  join_group-IsOutstanding :
      (k h : Text) (from_end : Bool) (s : MemoryStream)
      → IsOutstanding s
      → IsOutstanding (join_group k h from_end (get_group k h s) s).0
  join_group-IsOutstanding k h from_end s kept = record {
    stored = rw (join_group-streams k h from_end (get_group k h s) s) kept.stored;
    held = join_group-held k h from_end (get_group k h s) s refl kept.held;
  }

  with_stream-IsOutstanding :
      (k : Text) (s : MemoryStream) → IsOutstanding s → IsOutstanding (with_stream k s)
  unfolding get_group
  with_stream-IsOutstanding k s kept = record {
    stored = rw (entries-put k (entries k s) s) (elim (Bool-cases (text_eq k key)) [
      | inr other ↦ rw other kept.stored
      | inl same ↦ let this : k ≡ key = (text_eq_iff k key).0 same in rw (same, this) kept.stored
    ]);
    held = kept.held;
  }

  create_group-IsOutstanding :
      (k h : Text) (from_end mkstream : Bool) (s : MemoryStream)
      → IsOutstanding s
      → IsOutstanding (or_else s (create_group k h from_end mkstream s))
  unfolding create_group
  create_group-IsOutstanding k h from_end mkstream s kept = elim (Bool-cases (has_stream k s)) [
    | inl there ↦ rw (there, create_group) (join_group-IsOutstanding k h from_end s kept)
    | inr missing ↦ elim (Bool-cases mkstream) [
      | inl make ↦
          rw (missing, make, create_group)
            (join_group-IsOutstanding k h from_end (with_stream k s)
              (with_stream-IsOutstanding k s kept))
      | inr refuse ↦ rw (missing, refuse, create_group) kept
    ]
  ]

  delete_consumer-IsOutstanding :
      (k h consumer : Text) (o : Option Group) (s : MemoryStream)
      → get_group k h s ≡ o
      → spares (deletes k h consumer) ≡ true
      → IsOutstanding s
      → IsOutstanding (delete_consumer k h consumer s).0
  unfolding delete_consumer
  delete_consumer-IsOutstanding k h consumer none s here safe kept = rw (here, delete_consumer) kept
  delete_consumer-IsOutstanding k h consumer (some g) s here safe kept =
      rw (here, delete_consumer)
        (with_group-IsOutstanding k h (delete_in_group consumer) (some g) s here
          (λ x same held. absurd (ground (arith, safe, same))) kept)

  pub step-IsOutstanding :
      (s : MemoryStream) (e : Event) → spares e ≡ true → IsOutstanding s → IsOutstanding (step s e)
  unfolding step append get_group put_group read_group read_from_group ack ack_in_group claim
      claim_in_group
  step-IsOutstanding s (creates k h from_end mkstream) safe kept =
      create_group-IsOutstanding k h from_end mkstream s kept
  step-IsOutstanding s (appends k fields max_len now) safe kept = record {
    stored = append-stored k fields max_len now s safe kept.stored;
    held = kept.held;
  }
  step-IsOutstanding s (reads k h consumer count clock) safe kept =
      with_group-IsOutstanding k h (read_from_group consumer count clock (entries k s))
        (get_group k h s) s refl
        (λ g same held.
          deliver-held consumer count clock id 0 (entries k s) g.cursor g.pending held)
        kept
  step-IsOutstanding s (acks k h ids) safe kept =
      with_group-IsOutstanding k h (ack_in_group ids) (get_group k h s) s refl
        (λ g same held. ack_each-held id ids g.pending (ground (arith, safe, same)) held) kept
  step-IsOutstanding s (claims k h consumer min_idle_ms ids now) safe kept =
      with_group-IsOutstanding k h (claim_in_group consumer min_idle_ms ids now (entries k s))
        (get_group k h s) s refl
        (λ g same held.
          let this : key ≡ k = sym ((text_eq_iff k key).0 (ground (arith, same))) in
          let stored : find_entry id (entries k s) ≢ none =
            subst (λ (j : Text). find_entry id (entries j s) ≢ none) this kept.stored in
          claim_each-held consumer min_idle_ms now id (entries k s) ids g.pending stored held)
        kept
  step-IsOutstanding s (deletes k h consumer) safe kept =
      delete_consumer-IsOutstanding k h consumer (get_group k h s) s refl safe kept

  pub after-IsOutstanding :
      (es : List Event) (s : MemoryStream)
      → all_spare es ≡ true
      → IsOutstanding s
      → IsOutstanding (after s es)
  unfolding after
  after-IsOutstanding [] s safe kept = kept
  after-IsOutstanding (e ∷ es) s safe kept =
      after-IsOutstanding es (step s e) (ground (arith, safe))
        (step-IsOutstanding s e (ground (arith, safe)) kept)
