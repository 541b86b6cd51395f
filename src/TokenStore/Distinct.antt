-- ===== src/TokenStore/Distinct.antt =====
-- src/auth/token-store.ts: the keys of its Map.
use boilerplate_express_ts.Prelude.{
  ℕ, ◌-◌, inl, inr, Bool, List, [], ◌∷◌, leb, Text, Bool-cases, Option-cases,
}
use boilerplate_express_ts.Prelude.Map
use boilerplate_express_ts.Prelude.Map.{
  Map, IsFresh, HasDistinctKeys, get-put, get-delete, get-delete_if_kept,
}
use boilerplate_express_ts.TokenStore.{
  RefreshTokenState, RefreshTokenRecord, NewRefreshToken, TokenStore, is_expired, live, prune,
  issue, consume, revoke, revoke_where, in_family, of_user, revoke_family, revoke_all_for_user,
  is_active, use_up, prune_interval_ms,
}
use boilerplate_express_ts.Prelude.Map.{
  put-HasDistinctKeys, delete-HasDistinctKeys, delete_if-HasDistinctKeys,
}
use boilerplate_express_ts.TokenStore.Histories.{
  Event, issues, consumes, revokes, asks, revokes_family, revokes_user, prunes, step, run,
  state-cases,
}

revoke_where-IsFresh :
    (concerned : RefreshTokenRecord → Bool) (now : ℕ) (k : Text) (m : Map RefreshTokenRecord)
    → IsFresh k m
    → IsFresh k (revoke_where concerned now m)
unfolding revoke_where
revoke_where-IsFresh concerned now k [] fresh = tt
revoke_where-IsFresh concerned now k ((j, v) ∷ m) fresh =
    let rest = revoke_where-IsFresh concerned now k m fresh.1 in
    elim (Bool-cases (concerned v)) [
      | inr e ↦ rw e (fresh.0, rest)
      | inl e ↦ elim (Bool-cases (is_expired now v)) [
        | inl f ↦ rw (e, f) rest
        | inr f ↦ rw (e, f) (fresh.0, rest)
      ]
    ]

revoke_where-HasDistinctKeys :
    (concerned : RefreshTokenRecord → Bool) (now : ℕ) (m : Map RefreshTokenRecord)
    → HasDistinctKeys m
    → HasDistinctKeys (revoke_where concerned now m)
unfolding revoke_where
revoke_where-HasDistinctKeys concerned now [] h = tt
revoke_where-HasDistinctKeys concerned now ((j, v) ∷ m) h =
    let rest = revoke_where-HasDistinctKeys concerned now m h.1 in
    let fresh = revoke_where-IsFresh concerned now j m h.0 in
    elim (Bool-cases (concerned v)) [
      | inr e ↦ rw e (fresh, rest)
      | inl e ↦ elim (Bool-cases (is_expired now v)) [
        | inl f ↦ rw (e, f) rest
        | inr f ↦ rw (e, f) (fresh, rest)
      ]
    ]

live-HasDistinctKeys :
    (k : Text) (now : ℕ) (s : TokenStore)
    → HasDistinctKeys s.records
    → HasDistinctKeys (live k now s).0.records
unfolding live
live-HasDistinctKeys k now s h = elim (Option-cases (Map.get k s.records)) [
  | inl e ↦ rw (e, live) h
  | inr (r, e) ↦ elim (Bool-cases (is_expired now r)) [
    | inl f ↦ rw (e, f, live) (delete-HasDistinctKeys k s.records h)
    | inr f ↦ rw (e, f, live) h
  ]
]

use_up-HasDistinctKeys :
    (k : Text) (r : RefreshTokenRecord) (s : TokenStore)
    → HasDistinctKeys s.records
    → HasDistinctKeys (use_up k r s).0.records
unfolding use_up
use_up-HasDistinctKeys k r s h = elim (state-cases r.state) [
  | inl e ↦
      rw (e, use_up)
        (put-HasDistinctKeys k (record r { state = RefreshTokenState.rotated }) s.records h)
  | inr (inl e) ↦ rw (e, use_up) h
  | inr (inr e) ↦ rw (e, use_up) h
]

consume-HasDistinctKeys :
    (k : Text) (now : ℕ) (s : TokenStore)
    → HasDistinctKeys s.records
    → HasDistinctKeys (consume k now s).0.records
unfolding consume
consume-HasDistinctKeys k now s h =
    let seen = live-HasDistinctKeys k now s h in
    elim (Option-cases (live k now s).1) [
      | inl e ↦ rw (e, consume) seen
      | inr (r, e) ↦ rw (e, consume) (use_up-HasDistinctKeys k r (live k now s).0 seen)
    ]

revoke-HasDistinctKeys :
    (k : Text) (now : ℕ) (s : TokenStore)
    → HasDistinctKeys s.records
    → HasDistinctKeys (revoke k now s).records
unfolding revoke
revoke-HasDistinctKeys k now s h =
    let seen = live-HasDistinctKeys k now s h in
    elim (Option-cases (live k now s).1) [
      | inl e ↦ rw (e, revoke) seen
      | inr (r, e) ↦
          rw (e, revoke)
            (put-HasDistinctKeys k (record r { state = RefreshTokenState.revoked })
              (live k now s).0.records seen)
    ]

issue-HasDistinctKeys :
    (t : NewRefreshToken) (now : ℕ) (s : TokenStore)
    → HasDistinctKeys s.records
    → HasDistinctKeys (issue t now s).records
unfolding issue prune
issue-HasDistinctKeys t now s h =
    elim (Bool-cases (leb prune_interval_ms (now - s.last_pruned_at))) [
      | inl e ↦
          rw (e, issue)
            (put-HasDistinctKeys t.token _ (Map.delete_if (is_expired now) s.records)
              (delete_if-HasDistinctKeys (is_expired now) s.records h))
      | inr e ↦ rw (e, issue) (put-HasDistinctKeys t.token _ s.records h)
    ]

step-HasDistinctKeys :
    (e : Event) (s : TokenStore) → HasDistinctKeys s.records → HasDistinctKeys (step s e).records
unfolding step prune is_active revoke_family revoke_all_for_user
step-HasDistinctKeys (issues t now) s h = issue-HasDistinctKeys t now s h
step-HasDistinctKeys (consumes k now) s h = consume-HasDistinctKeys k now s h
step-HasDistinctKeys (revokes k now) s h = revoke-HasDistinctKeys k now s h
step-HasDistinctKeys (asks k now) s h = live-HasDistinctKeys k now s h
step-HasDistinctKeys (revokes_family f now) s h =
    revoke_where-HasDistinctKeys (in_family f) now s.records h
step-HasDistinctKeys (revokes_user u now) s h =
    revoke_where-HasDistinctKeys (of_user u) now s.records h
step-HasDistinctKeys (prunes now) s h = delete_if-HasDistinctKeys (is_expired now) s.records h

-- The store's Map never holds a token twice.
pub run-HasDistinctKeys :
    (es : List Event) (s : TokenStore)
    → HasDistinctKeys s.records
    → HasDistinctKeys (run s es).records
unfolding run
run-HasDistinctKeys [] s h = h
run-HasDistinctKeys (e ∷ es) s h = run-HasDistinctKeys es (step s e) (step-HasDistinctKeys e s h)
