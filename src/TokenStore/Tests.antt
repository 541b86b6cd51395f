-- ===== src/TokenStore/Tests.antt =====
-- The refresh tokens at concrete inputs.
use boilerplate_express_ts.Prelude.{◌≡◌, ◌≢◌, refl, List, [], ◌∷◌, codes, text_eq, arith}
use boilerplate_express_ts.Prelude.Map
use boilerplate_express_ts.TokenStore.{
  RefreshTokenState, RefreshTokenRecord, RefreshTokenConsumption, NewRefreshToken, TokenStore,
  reuse, create, live, issue, use_up, consume, revoke_family,
}
use boilerplate_express_ts.TokenStore.Histories.{Event, issues, consumes, prunes, step, run}
use boilerplate_express_ts.TokenStore.Rotation.{consume_once, revoke_family_ends}
use boilerplate_express_ts.TokenStore.Reuse.{consume_recognises}

abbrev login : NewRefreshToken
login = record { token = codes "t1"; user_id = codes "u"; family_id = codes "f"; expires_at = 100 }

abbrev rotation : NewRefreshToken
rotation = record {
  token = codes "t2";
  user_id = codes "u";
  family_id = codes "f";
  expires_at = 120;
}

abbrev fresh : RefreshTokenRecord
fresh = record {
  user_id = codes "u";
  family_id = codes "f";
  state = RefreshTokenState.active;
  expires_at = 100;
}

abbrev before : List Event
before = issues login 10 ∷ []

abbrev logged_in : TokenStore
logged_in = record { records = (codes "t1", fresh) ∷ []; last_pruned_at = 0 }

run-before : run (create 0) before ≡ logged_in
unfolding run step issue Map.put
run-before = refl

consume_twice :
    (consume (codes "t1") 30 (run logged_in (consumes (codes "t1") 20 ∷ []))).1
    ≡ reuse (codes "u") (codes "f")
unfolding run step consume live use_up Map.get Map.put text_eq
consume_twice = refl

consume_once_example :
    (consume
      (codes "t1")
      30
      (run (consume (codes "t1") 20 (run (create 0) before)).0 (issues rotation 20 ∷ []))).1
    ≢ RefreshTokenConsumption.rotated (codes "u") (codes "f")
consume_once_example =
    consume_once 0 before (issues rotation 20 ∷ []) (codes "t1") 20 30 (codes "u") (codes "f")
      ((λ e. ground (arith, e)), tt)

revoke_family_ends_example :
    (consume
      (codes "t1")
      30
      (run (revoke_family (codes "f") 20 (run (create 0) before)).0 (prunes 25 ∷ []))).1
    ≢ RefreshTokenConsumption.rotated (codes "u") (codes "f")
unfolding run step issue Map.put Map.get text_eq
revoke_family_ends_example =
    revoke_family_ends 0 before (prunes 25 ∷ []) (codes "t1") fresh 20 30 (codes "u") (codes "f")
      refl (tt, tt)

consume_recognises_example :
    consume (codes "t1") 30 (run (consume (codes "t1") 20 logged_in).0 (issues rotation 20 ∷ []))
    ≡ (
      run (consume (codes "t1") 20 logged_in).0 (issues rotation 20 ∷ []),
      reuse (codes "u") (codes "f"),
    )
unfolding Map.get text_eq consume live use_up
consume_recognises_example =
    consume_recognises (codes "t1") fresh 20 30 logged_in (issues rotation 20 ∷ []) (codes "u")
      (codes "f") refl refl ((omega arith, refl), tt) (omega arith)
