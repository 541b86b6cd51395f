-- ===== src/TokenStore.antt =====
-- src/auth/token-store.ts: the refresh tokens that were issued, over a Map. `Date.now()` is an argument
-- of the operation that calls it. A record that the source changes in place is put in its place.
mod Tests
pub mod Histories
pub mod Distinct
pub mod Rotation
pub mod Reuse
use boilerplate_express_ts.Prelude.{
  ℕ, suc, ◌+◌, ◌-◌, Bool, true, false, not, Option, none, some, List, [], ◌∷◌, leb, if◌then◌else◌,
  length, Text, text_eq,
}
use boilerplate_express_ts.Prelude.Map
use boilerplate_express_ts.Prelude.Map.{Map}

pub data RefreshTokenState : Type 0 where
  active rotated revoked : RefreshTokenState

pub record RefreshTokenRecord : Type 0 where
  pub user_id : Text
  pub family_id : Text
  pub state : RefreshTokenState
  pub expires_at : ℕ

pub record NewRefreshToken : Type 0 where
  pub token : Text
  pub user_id : Text
  pub family_id : Text
  pub expires_at : ℕ

pub record TokenStore : Type 0 where
  pub records : Map RefreshTokenRecord
  pub last_pruned_at : ℕ

pub data RefreshTokenConsumption : Type 0 where
  unknown : RefreshTokenConsumption
  rotated reuse revoked : (user_id : Text) → (family_id : Text) → RefreshTokenConsumption

abbrev pub create : ℕ → TokenStore
create now = record { records = []; last_pruned_at = now }

abbrev pub prune_interval_ms : ℕ
prune_interval_ms = 60000

abbrev pub is_expired : ℕ → RefreshTokenRecord → Bool
is_expired now r = leb r.expires_at now

-- A record that has expired is dropped on sight.
unfoldable pub live : Text → ℕ → TokenStore → TokenStore × Option RefreshTokenRecord
live token now s = elim (Map.get token s.records) [
  | none ↦ (s, none)
  | some r ↦
      if is_expired now r
      then (record s { records = Map.delete token s.records }, none)
      else (s, some r)
]

unfoldable pub prune : ℕ → TokenStore → TokenStore × ℕ
prune now s = (
  record { records = Map.delete_if (is_expired now) s.records; last_pruned_at = now },
  Map.count_if (is_expired now) s.records,
)

unfoldable pub issue : NewRefreshToken → ℕ → TokenStore → TokenStore
issue t now s =
    let kept = if leb prune_interval_ms (now - s.last_pruned_at) then (prune now s).0 else s in
    record kept {
      records =
          Map.put t.token
            (record {
              user_id = t.user_id;
              family_id = t.family_id;
              state = RefreshTokenState.active;
              expires_at = t.expires_at;
            })
            kept.records;
    }

abbrev pub set_state : RefreshTokenState → Text → RefreshTokenRecord → TokenStore → TokenStore
set_state state token r s = record s {
  records = Map.put token (record r { state = state }) s.records;
}

unfoldable pub use_up :
    Text → RefreshTokenRecord → TokenStore → TokenStore × RefreshTokenConsumption
use_up token r s = elim r.state [
  | RefreshTokenState.rotated ↦ (s, reuse r.user_id r.family_id)
  | RefreshTokenState.revoked ↦ (s, RefreshTokenConsumption.revoked r.user_id r.family_id)
  | active ↦ (
    set_state RefreshTokenState.rotated token r s,
    RefreshTokenConsumption.rotated r.user_id r.family_id,
  )
]

unfoldable pub consume : Text → ℕ → TokenStore → TokenStore × RefreshTokenConsumption
unfolding use_up
consume token now s =
    let (s', found) = live token now s in
    elim found [ none ↦ (s', unknown) | some r ↦ use_up token r s' ]

unfoldable pub revoke : Text → ℕ → TokenStore → TokenStore
revoke token now s =
    let (s', found) = live token now s in
    elim found [ none ↦ s' | some r ↦ set_state RefreshTokenState.revoked token r s' ]

-- The loops of `revokeFamily` and `revokeAllForUser`: records that are concerned and have expired are
-- dropped, and the others that are concerned are revoked.
unfoldable pub revoke_where :
    (RefreshTokenRecord → Bool) → ℕ → Map RefreshTokenRecord → Map RefreshTokenRecord
revoke_where concerned now [] = []
revoke_where concerned now ((k, r) ∷ m) =
    let rest = revoke_where concerned now m in
    if not (concerned r)
    then (k, r) ∷ rest
    else if is_expired now r
    then rest
    else (k, record r { state = RefreshTokenState.revoked }) ∷ rest

abbrev is_revoked : RefreshTokenState → Bool
is_revoked revoked = true
is_revoked _ = false

abbrev newly_revoked : (RefreshTokenRecord → Bool) → ℕ → RefreshTokenRecord → Bool
newly_revoked concerned now r =
    if not (concerned r)
    then false
    else if is_expired now r
    then false
    else not (is_revoked r.state)

abbrev pub in_family : Text → RefreshTokenRecord → Bool
in_family family_id r = text_eq r.family_id family_id

abbrev pub of_user : Text → RefreshTokenRecord → Bool
of_user user_id r = text_eq r.user_id user_id

unfoldable pub revoke_family : Text → ℕ → TokenStore → TokenStore × ℕ
revoke_family family_id now s = (
  record s { records = revoke_where (in_family family_id) now s.records },
  Map.count_if (newly_revoked (in_family family_id) now) s.records,
)

unfoldable pub revoke_all_for_user : Text → ℕ → TokenStore → TokenStore
revoke_all_for_user user_id now s = record s {
  records = revoke_where (of_user user_id) now s.records;
}

unfoldable pub is_active : Text → ℕ → TokenStore → TokenStore × Bool
is_active token now s =
    let (s', found) = live token now s in
    (
      s',
      elim found [
        | none ↦ false
        | some r ↦ elim r.state [ active ↦ true | rotated ↦ false | revoked ↦ false ]
      ],
    )

pub size : TokenStore → ℕ
size s = length s.records
