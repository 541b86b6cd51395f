-- ===== src/StreamMemory/Histories.antt =====
-- src/redis/stream.memory.ts over a history of commands: what the reads of a group hand out, and claims.
use boilerplate_express_ts.Prelude.{
  ℕ, ◌≡◌, ◌⊎◌, refl, sym, ap, subst, inl, inr, Bool, ◌&&◌, Option, none, some, List, [], ◌∷◌, ◌++◌,
  if◌then◌else◌, Text, text_eq, text_eq_iff, arith, Bool-cases,
}
use boilerplate_express_ts.Prelude.Map
use boilerplate_express_ts.Prelude.Map.{Map}
use boilerplate_express_ts.StreamGroup.{
  StreamEntry, Group, new_group, read_from_group, ack_in_group, claim_in_group, delete_in_group,
}
use boilerplate_express_ts.StreamGroup.Deliveries.{
  IsRising, IsOrdered, cursor_after, IsRising-append, IsRising-IsOrdered, read_from_group-IsRising,
}
use boilerplate_express_ts.StreamMemory.{
  MemoryStream, or_empty, find_group, get_group, put_group, entries, with_stream, join_group,
  has_stream, create_group, append, with_group, on_group, read_group, ack, claim, delete_consumer,
}

pub data Event : Type 0 where
  creates : (key group : Text) → (from_end mkstream : Bool) → Event
  appends : (key : Text) → Map Text → Option ℕ → (now : ℕ) → Event
  reads : (key group consumer : Text) → (count : ℕ) → (ℕ → ℕ) → Event
  acks : (key group : Text) → List Text → Event
  claims : (key group consumer : Text) → (min_idle_ms : ℕ) → List Text → (now : ℕ) → Event
  deletes : (key group consumer : Text) → Event

-- An operation that fails leaves the store.
abbrev pub or_else {ℓ} : {A : Type ℓ} → MemoryStream → Option (MemoryStream × A) → MemoryStream
or_else s none = s
or_else s (some (t, answer)) = t

unfoldable pub step : MemoryStream → Event → MemoryStream
step s (creates key group from_end mkstream) =
    or_else s (create_group key group from_end mkstream s)
step s (appends key fields max_len now) = (append key fields max_len now s).0
step s (reads key group consumer count clock) =
    or_else s (read_group key group consumer count clock s)
step s (acks key group ids) = or_else s (ack key group ids s)
step s (claims key group consumer min_idle_ms ids now) =
    or_else s (claim key group consumer min_idle_ms ids now s)
step s (deletes key group consumer) = (delete_consumer key group consumer s).0

unfoldable pub after : MemoryStream → List Event → MemoryStream
unfolding step
after s [] = s
after s (e ∷ es) = after (step s e) es

abbrev pub answer_of : Option (MemoryStream × List StreamEntry) → List StreamEntry
answer_of none = []
answer_of (some (s, es)) = es

-- What an event hands out as a read of the group.
unfoldable pub handed : Text → Text → MemoryStream → Event → List StreamEntry
handed key group s (reads k g consumer count clock) =
    let es = answer_of (read_group k g consumer count clock s) in
    if text_eq k key && text_eq g group then es else []
handed key group s _ = []

unfoldable pub all_handed : Text → Text → MemoryStream → List Event → List StreamEntry
unfolding step handed
all_handed key group s [] = []
all_handed key group s (e ∷ es) = handed key group s e ++ all_handed key group (step s e) es

find_group-or_empty : (h : Text) (o : Option (Map Group)) → find_group h o ≡ Map.get h (or_empty o)
unfolding Map.get
find_group-or_empty h none = refl
find_group-or_empty h (some m) = refl

pub get_group-put_group :
    (key group k h : Text) (g : Group) (s : MemoryStream)
    → get_group k h (put_group key group g s)
      ≡ (if text_eq key k && text_eq group h then some g else get_group k h s)
unfolding get_group put_group
get_group-put_group key group k h g s =
    let by_group = Map.put group g (or_empty (Map.get key s.groups)) in
    elim (Bool-cases (text_eq key k)) [
      | inr other ↦ rw (Map.get-put key k by_group s.groups, other) refl
      | inl same ↦
          let this : key ≡ k = (text_eq_iff key k).0 same in
          let inner = Map.get-put group h g (or_empty (Map.get key s.groups)) in
          rw (Map.get-put key k by_group s.groups, same, inner, ← this)
            (ap (λ o. if text_eq group h then some g else o)
              (sym (find_group-or_empty h (Map.get key s.groups))))
    ]

abbrev cursor_in : Option Group → Option Text
cursor_in none = none
cursor_in (some g) = g.cursor

-- The reads go on from the cursor, or the group is not there yet.
record GoesOn (before after : Option Group) (es : List StreamEntry) : Type 0 where
  rises : IsRising (cursor_in before) es
  ends : (cursor_in after ≡ cursor_after (cursor_in before) es) ⊎ ((before ≡ none) × (es ≡ []))

unmoved :
    (before after : Option Group) → cursor_in after ≡ cursor_in before → GoesOn before after []
unmoved before after same = record { rises = tt; ends = inl same }

module _ (key group : Text) where
  -- An operation on a group that leaves its cursor leaves all cursors.
  keeps_cursors :
      {A : Type 0} (k h : Text) (f : Group → Group × A) (o : Option Group) (s : MemoryStream)
      → get_group k h s ≡ o
      → ((g : Group) → (f g).0.cursor ≡ g.cursor)
      → cursor_in (get_group key group (or_else s (with_group k h (on_group f o) s)))
        ≡ cursor_in (get_group key group s)
  keeps_cursors k h f none s here kept = refl
  keeps_cursors k h f (some g) s here kept =
      let moved = get_group-put_group k h key group (f g).0 s in
      elim (Bool-cases (text_eq k key && text_eq h group)) [
        | inr other ↦ rw (moved, other) refl
        | inl same ↦
            let this : k ≡ key = (text_eq_iff k key).0 (ground (arith, same)) in
            let that : h ≡ group = (text_eq_iff h group).0 (ground (arith, same)) in
            let found : get_group key group s ≡ some g = rw (← this, ← that) here in
            rw (moved, same, found) (kept g)
      ]

  read-GoesOn :
      (k h consumer : Text) (count : ℕ) (clock : ℕ → ℕ) (o : Option Group) (s : MemoryStream)
      → get_group k h s ≡ o
      → GoesOn
          (get_group key group s)
          (get_group key group (
            or_else s
              (with_group k h (on_group (read_from_group consumer count clock (entries k s)) o) s)))
          (if text_eq k key && text_eq h group
            then answer_of
                (with_group k h (on_group (read_from_group consumer count clock (entries k s)) o) s)
            else [])
  read-GoesOn k h consumer count clock none s here =
      elim (Bool-cases (text_eq k key && text_eq h group)) [
        | inr other ↦ rw other (unmoved _ _ refl)
        | inl same ↦ rw same (unmoved _ _ refl)
      ]
  read-GoesOn k h consumer count clock (some g) s here =
      let r = read_from_group consumer count clock (entries k s) g in
      let moved = get_group-put_group k h key group r.0 s in
      elim (Bool-cases (text_eq k key && text_eq h group)) [
        | inr other ↦ rw (moved, other) (unmoved _ _ refl)
        | inl same ↦
            let this : k ≡ key = (text_eq_iff k key).0 (ground (arith, same)) in
            let that : h ≡ group = (text_eq_iff h group).0 (ground (arith, same)) in
            let found : get_group key group s ≡ some g = rw (← this, ← that) here in
            let (rises, ends) = read_from_group-IsRising consumer count clock (entries k s) g in
            rw (moved, same, found) (record { rises = rises; ends = inl ends })
      ]

  join-GoesOn :
      (k h : Text) (from_end : Bool) (o : Option Group) (s : MemoryStream)
      → get_group k h s ≡ o
      → GoesOn (get_group key group s) (get_group key group (join_group k h from_end o s).0) []
  unfolding join_group
  join-GoesOn k h from_end (some g) s here = unmoved _ _ refl
  join-GoesOn k h from_end none s here =
      let g = new_group from_end (entries k s) in
      let moved = get_group-put_group k h key group g s in
      elim (Bool-cases (text_eq k key && text_eq h group)) [
        | inr other ↦ rw (moved, other) (unmoved _ _ refl)
        | inl same ↦
            let this : k ≡ key = (text_eq_iff k key).0 (ground (arith, same)) in
            let that : h ≡ group = (text_eq_iff h group).0 (ground (arith, same)) in
            let absent : get_group key group s ≡ none = rw (← this, ← that) here in
            record { rises = tt; ends = inr (absent, refl) }
      ]

  create-GoesOn :
      (k h : Text) (from_end mkstream : Bool) (s : MemoryStream)
      → GoesOn
          (get_group key group s)
          (get_group key group (or_else s (create_group k h from_end mkstream s)))
          []
  unfolding create_group get_group
  create-GoesOn k h from_end mkstream s = elim (Bool-cases (has_stream k s)) [
    | inl there ↦ rw (there, create_group) (join-GoesOn k h from_end (get_group k h s) s refl)
    | inr missing ↦ elim (Bool-cases mkstream) [
      | inl make ↦
          rw (missing, make, create_group)
            (join-GoesOn k h from_end (get_group k h s) (with_stream k s) refl)
      | inr refuse ↦ rw (missing, refuse, create_group) (unmoved _ _ refl)
    ]
  ]

  delete-GoesOn :
      (k h consumer : Text) (o : Option Group) (s : MemoryStream)
      → get_group k h s ≡ o
      → GoesOn (get_group key group s) (get_group key group (delete_consumer k h consumer s).0) []
  unfolding delete_consumer delete_in_group
  delete-GoesOn k h consumer none s here = rw (here, delete_consumer) (unmoved _ _ refl)
  delete-GoesOn k h consumer (some g) s here =
      rw (here, delete_consumer)
        (unmoved _ _ (keeps_cursors k h (delete_in_group consumer) (some g) s here (λ x. refl)))

  step-GoesOn :
      (s : MemoryStream) (e : Event)
      → GoesOn (get_group key group s) (get_group key group (step s e)) (handed key group s e)
  unfolding step handed append get_group read_group ack ack_in_group claim claim_in_group
  step-GoesOn s (creates k h from_end mkstream) = create-GoesOn k h from_end mkstream s
  step-GoesOn s (appends k fields max_len now) = unmoved _ _ refl
  step-GoesOn s (reads k h consumer count clock) =
      read-GoesOn k h consumer count clock (get_group k h s) s refl
  step-GoesOn s (acks k h ids) =
      unmoved _ _ (keeps_cursors k h (ack_in_group ids) (get_group k h s) s refl (λ g. refl))
  step-GoesOn s (claims k h consumer min_idle_ms ids now) = unmoved _ _ (
      keeps_cursors k h (claim_in_group consumer min_idle_ms ids now (entries k s))
        (get_group k h s) s refl (λ g. refl))
  step-GoesOn s (deletes k h consumer) = delete-GoesOn k h consumer (get_group k h s) s refl

  weaken : (cursor : Option Text) (es : List StreamEntry) → IsRising cursor es → IsRising none es
  weaken cursor [] h = tt
  weaken cursor (e ∷ es) h = (refl, h.1)

  all_handed-IsRising :
      (es : List Event) (s : MemoryStream)
      → IsRising (cursor_in (get_group key group s)) (all_handed key group s es)
  unfolding all_handed
  all_handed-IsRising [] s = tt
  all_handed-IsRising (e ∷ es) s =
      let goes = step-GoesOn s e in
      let rest = all_handed-IsRising es (step s e) in
      elim goes.ends [
        | inl same ↦
            IsRising-append (cursor_in (get_group key group s)) (handed key group s e)
              (all_handed key group (step s e) es) goes.rises
              (subst (λ c. IsRising c (all_handed key group (step s e) es)) same rest)
        | inr (absent, nothing) ↦
            rw (absent, nothing) (weaken _ (all_handed key group (step s e) es) rest)
      ]

  -- Over any history of commands from any state of the store, the entries that reads of one group hand
  -- out, to whichever consumers, have ids each after all of those before it: none is read twice.
  pub all_handed-IsOrdered :
      (es : List Event) (s : MemoryStream) → IsOrdered (all_handed key group s es)
  all_handed-IsOrdered es s =
      IsRising-IsOrdered (cursor_in (get_group key group s)) (all_handed key group s es)
        (all_handed-IsRising es s)
