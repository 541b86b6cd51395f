-- ===== src/TokenStore/Rotation.antt =====
-- src/auth/token-store.ts: a token that was presented, or whose family was revoked.
use boilerplate_express_ts.Prelude.{
  ℕ, ◌≡◌, ◌≢◌, subst, inl, inr, Bool, some, List, [], ◌∷◌, All, Text, text_eq, text_eq_iff, arith,
  Bool-cases, Option-cases,
}
use boilerplate_express_ts.Prelude.Map
use boilerplate_express_ts.Prelude.Map.{
  Map, IsFresh, HasDistinctKeys, get-put, get-delete, get-delete_if_kept,
}
use boilerplate_express_ts.TokenStore.{
  RefreshTokenState, RefreshTokenRecord, TokenStore, RefreshTokenConsumption, is_expired, live,
  consume, revoke_where, in_family, revoke_family, use_up,
}
use boilerplate_express_ts.Prelude.{text_eq_refl, subst, sym, none, ◌∙◌, true}
use boilerplate_express_ts.Prelude.Map.{
  get-delete, get-delete_if_kept, get-put, IsFresh, HasDistinctKeys,
}
use boilerplate_express_ts.TokenStore.{create, in_family, revoke_family}
use boilerplate_express_ts.TokenStore.Distinct.{run-HasDistinctKeys}
use boilerplate_express_ts.TokenStore.Histories.{
  Event, run, Leaves, IsSpent, state-cases, run-IsSpent, revoke_where-IsSpent,
  consume-IsSpent_refused,
}

IsFresh-IsSpent : (token : Text) (m : Map RefreshTokenRecord) → IsFresh token m → IsSpent token m
IsFresh-IsSpent token [] fresh = tt
IsFresh-IsSpent token ((k, v) ∷ m) fresh =
    ((λ same. absurd (fresh.0 same)), IsFresh-IsSpent token m fresh.1)

put_spends :
    (token : Text) (r : RefreshTokenRecord) (m : Map RefreshTokenRecord)
    → r.state ≢ RefreshTokenState.active
    → HasDistinctKeys m
    → IsSpent token (Map.put token r m)
unfolding Map.put
put_spends token r [] h distinct = ((λ _. h), tt)
put_spends token r ((k, v) ∷ m) h distinct = elim (Bool-cases (text_eq k token)) [
  | inl e ↦ rw e (
    (λ _. h),
    IsFresh-IsSpent token m
        (subst (λ (j : Text). IsFresh j m) ((text_eq_iff k token).0 e) distinct.0),
  )
  | inr e ↦ rw e (
    (λ same. absurd (ground (arith, text_eq_iff k token, same))),
    put_spends token r m h distinct.1,
  )
]

get-none-IsSpent :
    (token : Text) (m : Map RefreshTokenRecord) → Map.get token m ≡ none → IsSpent token m
unfolding Map.get
get-none-IsSpent token [] e = tt
get-none-IsSpent token ((k, v) ∷ m) e = elim (Bool-cases (text_eq k token)) [
  | inl same ↦ absurd (ground arith)
  | inr other ↦ (
    (λ same. absurd (ground (arith, text_eq_iff k token, same))),
    get-none-IsSpent token m (ground arith),
  )
]

deleted-IsSpent : (token : Text) (m : Map RefreshTokenRecord) → IsSpent token (Map.delete token m)
deleted-IsSpent token m =
    get-none-IsSpent token (Map.delete token m)
      (get-delete token token m ∙ ground (arith, text_eq_refl token))

get-some-IsSpent :
    (token : Text) (r : RefreshTokenRecord) (m : Map RefreshTokenRecord)
    → Map.get token m ≡ some r
    → r.state ≢ RefreshTokenState.active
    → HasDistinctKeys m
    → IsSpent token m
unfolding Map.get
get-some-IsSpent token r [] e h distinct = tt
get-some-IsSpent token r ((k, v) ∷ m) e h distinct = elim (Bool-cases (text_eq k token)) [
  | inl same ↦
      let found : r ≡ v = ground arith in
      (
        (λ _. subst (λ (x : RefreshTokenRecord). x.state ≢ RefreshTokenState.active) found h),
        IsFresh-IsSpent token m
            (subst (λ (j : Text). IsFresh j m) ((text_eq_iff k token).0 same) distinct.0),
      )
  | inr other ↦ (
    (λ same. absurd (ground (arith, text_eq_iff k token, same))),
    get-some-IsSpent token r m (ground arith) h distinct.1,
  )
]

live-none-IsSpent :
    (token : Text) (now : ℕ) (s : TokenStore)
    → (live token now s).1 ≡ none
    → IsSpent token (live token now s).0.records
unfolding live
live-none-IsSpent token now s h = elim (Option-cases (Map.get token s.records)) [
  | inl e ↦ rw (e, live) (get-none-IsSpent token s.records e)
  | inr (r, e) ↦ elim (Bool-cases (is_expired now r)) [
    | inl f ↦ rw (e, f, live) (deleted-IsSpent token s.records)
    | inr f ↦ absurd (ground arith)
  ]
]

pub live-some :
    (token : Text) (now : ℕ) (s : TokenStore) (r : RefreshTokenRecord)
    → (live token now s).1 ≡ some r
    → ((live token now s).0 ≡ s) × (Map.get token s.records ≡ some r)
unfolding live
live-some token now s r h = ground arith

use_up_spends :
    (token : Text) (r : RefreshTokenRecord) (s : TokenStore)
    → Map.get token s.records ≡ some r
    → HasDistinctKeys s.records
    → IsSpent token (use_up token r s).0.records
unfolding use_up
use_up_spends token r s found distinct = elim (state-cases r.state) [
  | inl g ↦
      rw (g, use_up)
        (put_spends token (record r { state = RefreshTokenState.rotated }) s.records (λ eq. cc)
          distinct)
  | inr (inl g) ↦ rw (g, use_up) (get-some-IsSpent token r s.records found (λ eq. cc) distinct)
  | inr (inr g) ↦ rw (g, use_up) (get-some-IsSpent token r s.records found (λ eq. cc) distinct)
]

-- Whatever its answer, `consume` leaves the token spent.
consume_spends :
    (token : Text) (now : ℕ) (s : TokenStore)
    → HasDistinctKeys s.records
    → IsSpent token (consume token now s).0.records
unfolding consume
consume_spends token now s distinct = elim (Option-cases (live token now s).1) [
  | inl e ↦ rw (e, consume) (live-none-IsSpent token now s e)
  | inr (r, e) ↦
      let (same, found) = live-some token now s r e in
      rw (e, consume)
        (subst (λ (q : TokenStore). IsSpent token (use_up token r q).0.records) (sym same)
          (use_up_spends token r s found distinct))
]

revoke_where_spends :
    (concerned : RefreshTokenRecord → Bool) (now : ℕ) (token : Text) (r : RefreshTokenRecord)
    (m : Map RefreshTokenRecord)
    → Map.get token m ≡ some r
    → concerned r ≡ true
    → HasDistinctKeys m
    → IsSpent token (revoke_where concerned now m)
unfolding Map.get revoke_where
revoke_where_spends concerned now token r [] e h distinct = tt
revoke_where_spends concerned now token r ((k, v) ∷ m) e h distinct =
    elim (Bool-cases (text_eq k token)) [
      | inl same ↦
          let found : r ≡ v = ground arith in
          let hit : concerned v ≡ true =
            subst (λ (x : RefreshTokenRecord). concerned x ≡ true) found h in
          let gone = revoke_where-IsSpent concerned now token m (
            IsFresh-IsSpent token m
              (subst (λ (j : Text). IsFresh j m) ((text_eq_iff k token).0 same) distinct.0)) in
          elim (Bool-cases (is_expired now v)) [
            | inl f ↦ rw (hit, f) gone
            | inr f ↦ rw (hit, f) ((λ _ eq. cc), gone)
          ]
      | inr other ↦
          let rest = revoke_where_spends concerned now token r m (ground arith) h distinct.1 in
          let apart : k ≢ token = λ eq. ground (arith, text_eq_iff k token, eq) in
          elim (Bool-cases (concerned v)) [
            | inr f ↦ rw f ((λ eq. absurd (apart eq)), rest)
            | inl f ↦ elim (Bool-cases (is_expired now v)) [
              | inl g ↦ rw (f, g) rest
              | inr g ↦ rw (f, g) ((λ eq. absurd (apart eq)), rest)
            ]
          ]
    ]

-- A refresh token that was presented is never accepted again, whatever happens afterwards, unless the
-- same token is issued again.
pub consume_once :
    (start : ℕ) (before es : List Event) (token : Text) (now later : ℕ) (user_id family_id : Text)
    → All (Leaves token) es
    → (consume token later (run (consume token now (run (create start) before)).0 es)).1
      ≢ RefreshTokenConsumption.rotated user_id family_id
consume_once start before es token now later user_id family_id leaves =
    let s = run (create start) before in
    consume-IsSpent_refused token later (run (consume token now s).0 es) user_id family_id (
      run-IsSpent token es (consume token now s).0 leaves
        (consume_spends token now s (run-HasDistinctKeys before (create start) tt)))

-- Once a family is revoked, no token that was recorded in it is accepted, whatever happens afterwards,
-- unless the same token is issued again.
pub revoke_family_ends :
    (start : ℕ) (before es : List Event) (token : Text) (r : RefreshTokenRecord) (now later : ℕ)
    (user_id family_id : Text)
    → Map.get token (run (create start) before).records ≡ some r
    → All (Leaves token) es
    → (consume token later (run (revoke_family r.family_id now (run (create start) before)).0 es)).1
      ≢ RefreshTokenConsumption.rotated user_id family_id
unfolding revoke_family
revoke_family_ends start before es token r now later user_id family_id found leaves =
    let s = run (create start) before in
    let after = (revoke_family r.family_id now s).0 in
    consume-IsSpent_refused token later (run after es) user_id family_id (
      run-IsSpent token es after leaves (
        revoke_where_spends (in_family r.family_id) now token r s.records found
          (text_eq_refl r.family_id) (run-HasDistinctKeys before (create start) tt)))
