-- ===== src/TokenStore/Histories.antt =====
-- src/auth/token-store.ts over a history of calls, and the states that a token's record goes through.
use boilerplate_express_ts.Prelude.{
  ℕ, ◌-◌, ◌≡◌, ◌≢◌, ◌⊎◌, refl, subst, inl, inr, Bool, some, List, [], ◌∷◌, All, leb, Text, text_eq,
  text_eq_iff, arith, Bool-cases, Option-cases,
}
use boilerplate_express_ts.Prelude.Map
use boilerplate_express_ts.Prelude.Map.{
  Map, IsFresh, HasDistinctKeys, get-put, get-delete, get-delete_if_kept,
}
use boilerplate_express_ts.TokenStore.{
  RefreshTokenState, RefreshTokenRecord, NewRefreshToken, TokenStore, RefreshTokenConsumption,
  is_expired, live, prune, issue, consume, revoke, revoke_where, in_family, of_user, revoke_family,
  revoke_all_for_user, is_active, use_up, prune_interval_ms,
}

pub data Event : Type 0 where
  issues : NewRefreshToken → ℕ → Event
  consumes revokes asks : (token : Text) → ℕ → Event
  revokes_family revokes_user : (name : Text) → ℕ → Event
  prunes : ℕ → Event

unfoldable pub step : TokenStore → Event → TokenStore
step s (issues t now) = issue t now s
step s (consumes token now) = (consume token now s).0
step s (revokes token now) = revoke token now s
step s (asks token now) = (is_active token now s).0
step s (revokes_family f now) = (revoke_family f now s).0
step s (revokes_user u now) = revoke_all_for_user u now s
step s (prunes now) = (prune now s).0

unfoldable pub run : TokenStore → List Event → TokenStore
run s [] = s
run s (e ∷ es) = run (step s e) es

-- The event does not issue the token.
abbrev pub Leaves : Text → Event → Type 0
Leaves token (issues t now) = t.token ≢ token
Leaves token _ = Unit

-- No record of the token is active.
abbrev pub IsSpent : Text → Map RefreshTokenRecord → Type 0
IsSpent token [] = Unit
IsSpent token ((k, r) ∷ m) = (k ≡ token → r.state ≢ RefreshTokenState.active) × IsSpent token m

put-IsSpent :
    (token k : Text) (r : RefreshTokenRecord) (m : Map RefreshTokenRecord)
    → (k ≡ token → r.state ≢ RefreshTokenState.active)
    → IsSpent token m
    → IsSpent token (Map.put k r m)
unfolding Map.put
put-IsSpent token k r [] h spent = (h, tt)
put-IsSpent token k r ((j, v) ∷ m) h spent = elim (Bool-cases (text_eq j k)) [
  | inl e ↦ rw e (h, spent.1)
  | inr e ↦ rw e (spent.0, put-IsSpent token k r m h spent.1)
]

delete-IsSpent :
    (token k : Text) (m : Map RefreshTokenRecord) → IsSpent token m → IsSpent token (Map.delete k m)
unfolding Map.delete
delete-IsSpent token k [] spent = tt
delete-IsSpent token k ((j, v) ∷ m) spent = elim (Bool-cases (text_eq j k)) [
  | inl e ↦ rw e (delete-IsSpent token k m spent.1)
  | inr e ↦ rw e (spent.0, delete-IsSpent token k m spent.1)
]

delete_if-IsSpent :
    (p : RefreshTokenRecord → Bool) (token : Text) (m : Map RefreshTokenRecord)
    → IsSpent token m
    → IsSpent token (Map.delete_if p m)
unfolding Map.delete_if
delete_if-IsSpent p token [] spent = tt
delete_if-IsSpent p token ((j, v) ∷ m) spent = elim (Bool-cases (p v)) [
  | inl e ↦ rw e (delete_if-IsSpent p token m spent.1)
  | inr e ↦ rw e (spent.0, delete_if-IsSpent p token m spent.1)
]

pub revoke_where-IsSpent :
    (concerned : RefreshTokenRecord → Bool) (now : ℕ) (token : Text) (m : Map RefreshTokenRecord)
    → IsSpent token m
    → IsSpent token (revoke_where concerned now m)
unfolding revoke_where
revoke_where-IsSpent concerned now token [] spent = tt
revoke_where-IsSpent concerned now token ((j, v) ∷ m) spent =
    let rest = revoke_where-IsSpent concerned now token m spent.1 in
    elim (Bool-cases (concerned v)) [
      | inr e ↦ rw e (spent.0, rest)
      | inl e ↦ elim (Bool-cases (is_expired now v)) [
        | inl f ↦ rw (e, f) rest
        | inr f ↦ rw (e, f) ((λ _ same. cc), rest)
      ]
    ]

live-IsSpent :
    (token k : Text) (now : ℕ) (s : TokenStore)
    → IsSpent token s.records
    → IsSpent token (live k now s).0.records
unfolding live
live-IsSpent token k now s spent = elim (Option-cases (Map.get k s.records)) [
  | inl e ↦ rw (e, live) spent
  | inr (r, e) ↦ elim (Bool-cases (is_expired now r)) [
    | inl f ↦ rw (e, f, live) (delete-IsSpent token k s.records spent)
    | inr f ↦ rw (e, f, live) spent
  ]
]

pub state-cases :
    (st : RefreshTokenState)
    → (st ≡ RefreshTokenState.active)
      ⊎ ((st ≡ RefreshTokenState.rotated) ⊎ (st ≡ RefreshTokenState.revoked))
state-cases RefreshTokenState.active = inl refl
state-cases RefreshTokenState.rotated = inr (inl refl)
state-cases RefreshTokenState.revoked = inr (inr refl)

use_up-IsSpent :
    (token k : Text) (r : RefreshTokenRecord) (s : TokenStore)
    → IsSpent token s.records
    → IsSpent token (use_up k r s).0.records
unfolding use_up
use_up-IsSpent token k r s spent = elim (state-cases r.state) [
  | inl e ↦
      rw (e, use_up)
        (put-IsSpent token k (record r { state = RefreshTokenState.rotated }) s.records
          (λ _ same. cc) spent)
  | inr (inl e) ↦ rw (e, use_up) spent
  | inr (inr e) ↦ rw (e, use_up) spent
]

consume-IsSpent :
    (token k : Text) (now : ℕ) (s : TokenStore)
    → IsSpent token s.records
    → IsSpent token (consume k now s).0.records
unfolding consume
consume-IsSpent token k now s spent = elim (Option-cases (live k now s).1) [
  | inl e ↦ rw (e, consume) (live-IsSpent token k now s spent)
  | inr (r, e) ↦
      rw (e, consume) (use_up-IsSpent token k r (live k now s).0 (live-IsSpent token k now s spent))
]

revoke-IsSpent :
    (token k : Text) (now : ℕ) (s : TokenStore)
    → IsSpent token s.records
    → IsSpent token (revoke k now s).records
unfolding revoke
revoke-IsSpent token k now s spent = elim (Option-cases (live k now s).1) [
  | inl e ↦ rw (e, revoke) (live-IsSpent token k now s spent)
  | inr (r, e) ↦
      rw (e, revoke)
        (put-IsSpent token k (record r { state = RefreshTokenState.revoked })
          (live k now s).0.records (λ _ same. cc) (live-IsSpent token k now s spent))
]

issue-IsSpent :
    (token : Text) (t : NewRefreshToken) (now : ℕ) (s : TokenStore)
    → t.token ≢ token
    → IsSpent token s.records
    → IsSpent token (issue t now s).records
unfolding issue prune
issue-IsSpent token t now s other spent =
    let new : RefreshTokenRecord = record {
      user_id = t.user_id;
      family_id = t.family_id;
      state = RefreshTokenState.active;
      expires_at = t.expires_at;
    } in
    elim (Bool-cases (leb prune_interval_ms (now - s.last_pruned_at))) [
      | inl e ↦
          rw (e, issue)
            (put-IsSpent token t.token new (Map.delete_if (is_expired now) s.records)
              (λ same. absurd (other same))
              (delete_if-IsSpent (is_expired now) token s.records spent))
      | inr e ↦
          rw (e, issue)
            (put-IsSpent token t.token new s.records (λ same. absurd (other same)) spent)
    ]

step-IsSpent :
    (token : Text) (e : Event) (s : TokenStore)
    → Leaves token e
    → IsSpent token s.records
    → IsSpent token (step s e).records
unfolding step issue prune is_active revoke_family revoke_all_for_user
step-IsSpent token (issues t now) s leaves spent = issue-IsSpent token t now s leaves spent
step-IsSpent token (consumes k now) s leaves spent = consume-IsSpent token k now s spent
step-IsSpent token (revokes k now) s leaves spent = revoke-IsSpent token k now s spent
step-IsSpent token (asks k now) s leaves spent = live-IsSpent token k now s spent
step-IsSpent token (revokes_family f now) s leaves spent =
    revoke_where-IsSpent (in_family f) now token s.records spent
step-IsSpent token (revokes_user u now) s leaves spent =
    revoke_where-IsSpent (of_user u) now token s.records spent
step-IsSpent token (prunes now) s leaves spent =
    delete_if-IsSpent (is_expired now) token s.records spent

-- A token that is spent stays so through every event that does not issue it.
pub run-IsSpent :
    (token : Text) (es : List Event) (s : TokenStore)
    → All (Leaves token) es
    → IsSpent token s.records
    → IsSpent token (run s es).records
unfolding run
run-IsSpent token [] s leaves spent = spent
run-IsSpent token (e ∷ es) s leaves spent =
    run-IsSpent token es (step s e) leaves.1 (step-IsSpent token e s leaves.0 spent)

pub get-IsSpent :
    (token : Text) (m : Map RefreshTokenRecord) (r : RefreshTokenRecord)
    → IsSpent token m
    → Map.get token m ≡ some r
    → r.state ≢ RefreshTokenState.active
unfolding Map.get
get-IsSpent token [] r spent e = cc
get-IsSpent token ((k, v) ∷ m) r spent e = elim (Bool-cases (text_eq k token)) [
  | inl same ↦
      let found : v ≡ r = ground arith in
      subst (λ (x : RefreshTokenRecord). x.state ≢ RefreshTokenState.active) found
        (spent.0 ((text_eq_iff k token).0 same))
  | inr other ↦ get-IsSpent token m r spent.1 (ground arith)
]

-- A spent token is never accepted.
pub consume-IsSpent_refused :
    (token : Text) (now : ℕ) (s : TokenStore) (user_id family_id : Text)
    → IsSpent token s.records
    → (consume token now s).1 ≢ RefreshTokenConsumption.rotated user_id family_id
unfolding consume live use_up
consume-IsSpent_refused token now s user_id family_id spent e =
    elim (Option-cases (Map.get token s.records)) [
      | inl none_found ↦ ground arith
      | inr (r, found) ↦ let spent_state = get-IsSpent token s.records r spent found in ground arith
    ]
