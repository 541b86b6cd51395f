-- ===== src/TokenStore/Reuse.antt =====
-- src/auth/token-store.ts: a token that was rotated away and comes back.
use boilerplate_express_ts.Prelude.{
  ℕ, ◌-◌, ◌≡◌, refl, subst, inl, inr, Bool, some, List, [], ◌∷◌, All, leb, Text, text_eq,
  text_eq_iff, arith, Bool-cases, Option-cases,
}
use boilerplate_express_ts.Prelude.Map
use boilerplate_express_ts.Prelude.Map.{
  Map, IsFresh, HasDistinctKeys, get-put, get-delete, get-delete_if_kept,
}
use boilerplate_express_ts.TokenStore.{
  RefreshTokenState, RefreshTokenRecord, NewRefreshToken, TokenStore, RefreshTokenConsumption,
  is_expired, live, prune, issue, consume, revoke, revoke_where, in_family, of_user, revoke_family,
  revoke_all_for_user, is_active, use_up, prune_interval_ms,
}
use boilerplate_express_ts.Prelude.{text_eq_refl, subst, sym}
use boilerplate_express_ts.Prelude.Map.{
  get-delete, get-delete_if_kept, get-put, IsFresh, HasDistinctKeys,
}
use boilerplate_express_ts.TokenStore.{
  in_family, of_user, revoke_family, revoke_all_for_user, reuse, is_active, issue, prune,
  prune_interval_ms,
}
use boilerplate_express_ts.TokenStore.Rotation.{live-some}
use boilerplate_express_ts.Prelude.{◌<◌, ◌-◌, leb, false, refl, All-mono}
use boilerplate_express_ts.TokenStore.Histories.{
  Event, issues, consumes, revokes, asks, revokes_family, revokes_user, prunes, step, run,
}

-- The event comes before the record expires; it neither issues nor revokes the token, nor revokes its
-- family or its user.
abbrev pub Spares : Text → RefreshTokenRecord → Event → Type 0
Spares token r (issues t now) = (now < r.expires_at) × (text_eq t.token token ≡ false)
Spares token r (consumes k now) = now < r.expires_at
Spares token r (asks k now) = now < r.expires_at
Spares token r (prunes now) = now < r.expires_at
Spares token r (revokes k now) = (now < r.expires_at) × (text_eq k token ≡ false)
Spares token r (revokes_family f now) = in_family f r ≡ false
Spares token r (revokes_user u now) = of_user u r ≡ false

abbrev Holds : Text → RefreshTokenRecord → TokenStore → Type 0
Holds token r s = Map.get token s.records ≡ some r

revoke_where-get :
    (concerned : RefreshTokenRecord → Bool) (now : ℕ) (token : Text) (r : RefreshTokenRecord)
    (m : Map RefreshTokenRecord)
    → concerned r ≡ false
    → Map.get token m ≡ some r
    → Map.get token (revoke_where concerned now m) ≡ some r
unfolding Map.get revoke_where
revoke_where-get concerned now token r [] h e = cc
revoke_where-get concerned now token r ((k, v) ∷ m) h e =
    ground (arith, revoke_where-get concerned now token r m)

live-Holds :
    (token k : Text) (r : RefreshTokenRecord) (now : ℕ) (s : TokenStore)
    → now < r.expires_at
    → Holds token r s
    → Holds token r (live k now s).0
unfolding live
live-Holds token k r now s h e = ground (arith, text_eq_iff k token, get-delete k token s.records)

use_up-Holds :
    (token k : Text) (r v : RefreshTokenRecord) (s : TokenStore)
    → r.state ≡ RefreshTokenState.rotated
    → Map.get k s.records ≡ some v
    → Holds token r s
    → Holds token r (use_up k v s).0
unfolding use_up
use_up-Holds token k r v s h found e = ground (
  arith,
  text_eq_iff k token,
  get-put k token (record v { state = RefreshTokenState.rotated }) s.records,
)

consume-Holds :
    (token k : Text) (r : RefreshTokenRecord) (now : ℕ) (s : TokenStore)
    → r.state ≡ RefreshTokenState.rotated
    → now < r.expires_at
    → Holds token r s
    → Holds token r (consume k now s).0
unfolding consume
consume-Holds token k r now s rot h e = elim (Option-cases (live k now s).1) [
  | inl g ↦ rw (g, consume) (live-Holds token k r now s h e)
  | inr (v, g) ↦
      let (same, found) = live-some k now s v g in
      rw (g, consume)
        (subst (λ (q : TokenStore). Holds token r (use_up k v q).0) (sym same)
          (use_up-Holds token k r v s rot found e))
]

revoke-Holds :
    (token k : Text) (r : RefreshTokenRecord) (now : ℕ) (s : TokenStore)
    → text_eq k token ≡ false
    → now < r.expires_at
    → Holds token r s
    → Holds token r (revoke k now s)
unfolding revoke
revoke-Holds token k r now s other h e = elim (Option-cases (live k now s).1) [
  | inl g ↦ rw (g, revoke) (live-Holds token k r now s h e)
  | inr (v, g) ↦
      rw (g, revoke)
        (rw
          (
            get-put k token (record v { state = RefreshTokenState.revoked })
                (live k now s).0.records,
            other,
          )
          (live-Holds token k r now s h e))
]

issue-Holds :
    (token : Text) (r : RefreshTokenRecord) (t : NewRefreshToken) (now : ℕ) (s : TokenStore)
    → text_eq t.token token ≡ false
    → now < r.expires_at
    → Holds token r s
    → Holds token r (issue t now s)
unfolding issue prune
issue-Holds token r t now s other h e =
    let kept = get-delete_if_kept (is_expired now) token r s.records e (ground arith) in
    elim (Bool-cases (leb prune_interval_ms (now - s.last_pruned_at))) [
      | inl f ↦
          rw (f, issue)
            (rw (get-put t.token token _ (Map.delete_if (is_expired now) s.records), other) kept)
      | inr f ↦ rw (f, issue) (rw (get-put t.token token _ s.records, other) e)
    ]

step-Holds :
    (token : Text) (r : RefreshTokenRecord) (e : Event) (s : TokenStore)
    → r.state ≡ RefreshTokenState.rotated
    → Spares token r e
    → Holds token r s
    → Holds token r (step s e)
unfolding step prune is_active revoke_family revoke_all_for_user
step-Holds token r (issues t now) s rot h e = issue-Holds token r t now s h.1 h.0 e
step-Holds token r (consumes k now) s rot h e = consume-Holds token k r now s rot h e
step-Holds token r (revokes k now) s rot h e = revoke-Holds token k r now s h.1 h.0 e
step-Holds token r (asks k now) s rot h e = live-Holds token k r now s h e
step-Holds token r (revokes_family f now) s rot h e =
    revoke_where-get (in_family f) now token r s.records h e
step-Holds token r (revokes_user u now) s rot h e =
    revoke_where-get (of_user u) now token r s.records h e
step-Holds token r (prunes now) s rot h e =
    get-delete_if_kept (is_expired now) token r s.records e (ground arith)

run-Holds :
    (token : Text) (r : RefreshTokenRecord) (es : List Event) (s : TokenStore)
    → r.state ≡ RefreshTokenState.rotated
    → All (Spares token r) es
    → Holds token r s
    → Holds token r (run s es)
unfolding run
run-Holds token r [] s rot h e = e
run-Holds token r (x ∷ es) s rot h e =
    run-Holds token r es (step s x) rot h.1 (step-Holds token r x s rot h.0 e)

consume_accepts :
    (token : Text) (r : RefreshTokenRecord) (now : ℕ) (s : TokenStore) (user_id family_id : Text)
    → Holds token r s
    → (consume token now s).1 ≡ RefreshTokenConsumption.rotated user_id family_id
    → Holds token (record r { state = RefreshTokenState.rotated }) (consume token now s).0
unfolding consume live use_up
consume_accepts token r now s user_id family_id e answer = ground (
  arith,
  text_eq_refl token,
  get-put token token (record r { state = RefreshTokenState.rotated }) s.records,
)

consume_recalls :
    (token : Text) (r : RefreshTokenRecord) (later : ℕ) (s : TokenStore)
    → Holds token r s
    → r.state ≡ RefreshTokenState.rotated
    → later < r.expires_at
    → consume token later s ≡ (s, reuse r.user_id r.family_id)
unfolding consume live use_up
consume_recalls token r later s e rot h = ground arith

Spares-rotated :
    (token : Text) (r : RefreshTokenRecord) (e : Event)
    → Spares token r e
    → Spares token (record r { state = RefreshTokenState.rotated }) e
Spares-rotated token r (issues t now) h = h
Spares-rotated token r (consumes k now) h = h
Spares-rotated token r (asks k now) h = h
Spares-rotated token r (prunes now) h = h
Spares-rotated token r (revokes k now) h = h
Spares-rotated token r (revokes_family f now) h = h
Spares-rotated token r (revokes_user u now) h = h

-- A token that was accepted and comes back before it expires is reported as reused, with its user and
-- its family, and nothing changes, as long as neither it nor its family nor its user was revoked, it
-- was not issued again and no clock reading reached its expiry.
pub consume_recognises :
    (token : Text) (r : RefreshTokenRecord) (now later : ℕ) (s : TokenStore) (es : List Event)
    (user_id family_id : Text)
    → Map.get token s.records ≡ some r
    → (consume token now s).1 ≡ RefreshTokenConsumption.rotated user_id family_id
    → All (Spares token r) es
    → later < r.expires_at
    → consume token later (run (consume token now s).0 es)
      ≡ (run (consume token now s).0 es, reuse r.user_id r.family_id)
consume_recognises token r now later s es user_id family_id e answer spares h =
    let spent : RefreshTokenRecord = record r { state = RefreshTokenState.rotated } in
    consume_recalls token spent later (run (consume token now s).0 es)
      (run-Holds token spent es (consume token now s).0 refl
        (All-mono (Spares token r) (Spares token spent) es (Spares-rotated token r) spares)
        (consume_accepts token r now s user_id family_id e answer))
      refl h
