-- ===== src/Storage/Sessions/Tests.antt =====
-- Runs and witnesses for the browser sessions.
use go_cloud_k8s_auth.Prelude.{
  ◌+◌, Bytes, bytes_beq, true, false, ltb, bytes_eq, [], ◌∷◌, ◌≡◌, ◌≢◌, refl,
}
use go_cloud_k8s_auth.Prelude.Strings.{str, hex, base64_raw_url}
use go_cloud_k8s_auth.Prelude.Error.{ok, err, sentinel, session_not_found, is}
use go_cloud_k8s_auth.Domain.{Session}
use go_cloud_k8s_auth.Storage.Db.{Db, query, to_micros}
use go_cloud_k8s_auth.Storage.Sessions.{
  create, get_valid, revoke, hash_session_token, new_session_token, new_row,
}
use go_cloud_k8s_auth.Storage.Sessions.Ended.{creates, validates, calls}
use go_cloud_k8s_auth.Storage.Sessions.Lifetime.{revoked_for_good, valid_until}
use go_cloud_k8s_auth.Fixtures.{uuid, test_platform, two_users}

-- The random bytes 1, 2 and 3, as a token.
abbrev token : Bytes
token = str "AQID"

abbrev with_session : Db
with_session = (create test_platform 10 (ok (1 ∷ 2 ∷ 3 ∷ [])) (uuid 1) [] [] 50000 two_users).1

valid_until_example :
    (ltb 30 (to_micros (10 + 50000)) ≡ true
      → (s : Session) × ((get_valid test_platform 30 token with_session).0 ≡ ok s)
        × (s.user_id ≡ uuid 1))
    × (ltb 30 (to_micros (10 + 50000)) ≡ false
        → (get_valid test_platform 30 token with_session).0 ≡ err (sentinel session_not_found))
unfolding create hash_session_token new_session_token query to_micros bytes_beq hex base64_raw_url
    is
valid_until_example =
    valid_until test_platform (1 ∷ 2 ∷ 3 ∷ []) (uuid 1) [] [] token 50000 10 30 two_users
      with_session refl refl refl refl

abbrev a_session : Session
a_session =
    new_row test_platform 10 (hash_session_token test_platform token) (uuid 1) 60000 [] [] two_users

abbrev one_session : Db
one_session = record two_users { sessions = a_session ∷ [] }

abbrev revoked_session : Db
revoked_session = (revoke test_platform 20 token one_session).1

revoked_for_good_example :
    (get_valid test_platform 30 token (
      calls test_platform
        ((22, creates (ok (4 ∷ [])) (uuid 1) [] [] 50) ∷ (25, validates token) ∷ [])
        revoked_session)).0
    ≢ ok a_session
unfolding revoke hash_session_token query bytes_beq hex
revoked_for_good_example =
    revoked_for_good test_platform 20 30 token one_session revoked_session
      ((22, creates (ok (4 ∷ [])) (uuid 1) [] [] 50) ∷ (25, validates token) ∷ []) a_session refl
      refl
