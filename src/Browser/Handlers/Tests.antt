-- ===== src/Browser/Handlers/Tests.antt =====
-- Runs and witnesses for the browser handlers, over PostgreSQL.
use go_cloud_k8s_auth.Prelude.{
  Bytes, bytes_beq, true, false, bytes_eq, none, some, [], ◌∷◌, ◌≡◌, refl,
}
use go_cloud_k8s_auth.Prelude.Int.{int_beq, pos}
use go_cloud_k8s_auth.Prelude.Strings.{str, hex, has_prefix, strip_prefix, base64_raw_url}
use go_cloud_k8s_auth.Prelude.Error.{ok}
use go_cloud_k8s_auth.Domain.{User, Session}
use go_cloud_k8s_auth.Rbac.{has_role}
use go_cloud_k8s_auth.Storage.Db.{to_micros, Db, query, violation}
use go_cloud_k8s_auth.Storage.UserRows.{target}
use go_cloud_k8s_auth.Storage.Users.{
  pgx_users, upsert_by_provider, add_role, get_by_id, get_user_group_ids,
}
use go_cloud_k8s_auth.Storage.Sessions.{
  pgx_sessions, hash_session_token, new_session_token, new_row, get_valid,
}
use go_cloud_k8s_auth.Storage.Sessions
use go_cloud_k8s_auth.StateStore.{validate_and_consume}
use go_cloud_k8s_auth.Mappers.{domain_user_to_jwt_user_info}
use go_cloud_k8s_auth.OauthProviders.{
  user_info_fetcher, fetch_git_hub_user_info, pick_git_hub_email,
}
use go_cloud_k8s_auth.AuthService.{
  App, on_store, config_of, ensure_bootstrap_admin, authenticate_oauth_user, issue_jwt_for_user,
  get_group_ids_as_ints,
}
use go_cloud_k8s_auth.Browser.{
  redirect, TokenResponse, Cookie, is_allowed_redirect, callback_url, lifetime, session_cookie,
  cookie_value, or_root,
}
use go_cloud_k8s_auth.Browser.Handlers.{
  handle_login, handle_oauth_callback, handle_token, current_session,
}
use go_cloud_k8s_auth.Browser.Handlers.Safety.{
  RedirectsAllowed, redirects_allowed, cookie_means_login, minted_means_session,
}
use go_cloud_k8s_auth.Browser.Handlers.RoundTrip.{Mints, cookie_logs_in}
use go_cloud_k8s_auth.Fixtures.{
  alice_email, uuid, test_platform, test_settings, test_app, two_users, test_browser, test_request,
}

redirects_allowed_example :
    RedirectsAllowed test_platform test_browser
      (handle_login test_platform test_settings
        (pgx_users test_platform 9)
        (pgx_sessions test_platform 9)
        test_browser
        (test_request [])
        test_app).0
    × RedirectsAllowed test_platform test_browser
        (handle_oauth_callback test_platform test_settings
          (pgx_users test_platform 9)
          (pgx_sessions test_platform 9)
          test_browser
          (ok (1 ∷ 2 ∷ 3 ∷ []))
          9
          (test_request [])
          test_app).0
redirects_allowed_example =
    redirects_allowed test_platform test_settings (pgx_users test_platform 9)
      (pgx_sessions test_platform 9) test_browser (ok (1 ∷ 2 ∷ 3 ∷ [])) 9 (test_request []) test_app

abbrev after_callback : App Db
after_callback =
    (handle_oauth_callback test_platform test_settings (pgx_users test_platform 9)
      (pgx_sessions test_platform 9) test_browser (ok (1 ∷ 2 ∷ 3 ∷ [])) 9 (test_request [])
      test_app).2

abbrev set_cookie : Cookie
set_cookie = session_cookie test_platform test_browser (str "AQID")

cookie_means_login_example :
    (uri : Bytes) × (u : User) × (s : App Db) × (token : Bytes) × ((test_request []).error ≡ [])
    × ((validate_and_consume 9 (str "s") (str "github") test_app.states).0 ≡ some uri)
    × (on_store
          (authenticate_oauth_user test_platform test_settings
            (pgx_users test_platform 9)
            (str "github")
            (str "c")
            (callback_url test_platform test_browser (str "github")))
          (record test_app {
            states = (validate_and_consume 9 (str "s") (str "github") test_app.states).1;
          })
        ≡ (ok u, s))
    × (on_store
          (Sessions.create test_platform 9
            (ok (1 ∷ 2 ∷ 3 ∷ []))
            u.id
            []
            []
            (lifetime test_platform test_browser))
          s
        ≡ (ok token, after_callback))
    × (set_cookie ≡ session_cookie test_platform test_browser token)
    × (redirect (str "/home") ≡ redirect (or_root uri))
unfolding handle_oauth_callback validate_and_consume is_allowed_redirect has_prefix strip_prefix
    authenticate_oauth_user config_of user_info_fetcher fetch_git_hub_user_info pick_git_hub_email
    upsert_by_provider target violation query ensure_bootstrap_admin add_role has_role bytes_beq
    Sessions.create hash_session_token new_session_token hex base64_raw_url int_beq
cookie_means_login_example =
    cookie_means_login test_platform test_settings (pgx_users test_platform 9)
      (pgx_sessions test_platform 9) test_browser (ok (1 ∷ 2 ∷ 3 ∷ [])) 9 (test_request []) test_app
      after_callback (redirect (str "/home")) set_cookie refl

abbrev a_session : Session
a_session =
    new_row test_platform 10 (hash_session_token test_platform (str "AQID")) (uuid 1) 60000 [] []
      two_users

abbrev with_session : App Db
with_session = record test_app { store = record two_users { sessions = a_session ∷ [] } }

abbrev answer : TokenResponse
answer = record {
  token = alice_email;
  expires_in_seconds = 3600;
  user_id = pos 1;
  email = alice_email;
  name = str "Alice";
  avatar_url = [];
  is_admin = false;
}

abbrev after_token : App Db
after_token =
    (handle_token test_platform test_settings (pgx_users test_platform 30)
      (pgx_sessions test_platform 30) test_browser (test_request (str "AQID")) with_session).2

minted_means_session_example :
    (v : Bytes) × (session : Session) × (u : User) × (s₁ : App Db) × (s₂ : App Db) × (cookie_value
        test_platform test_browser
        (test_request (str "AQID"))
      ≡ some v)
    × (on_store (get_valid test_platform 30 v) with_session ≡ (ok session, s₁))
    × (on_store (get_by_id test_platform 30 session.user_id) s₁ ≡ (ok u, s₂))
    × (u.is_active ≡ true)
    × (on_store (issue_jwt_for_user test_platform test_settings (pgx_users test_platform 30) u) s₂
        ≡ (ok answer.token, after_token))
    × (answer.user_id ≡ u.alternate_app_id)
unfolding handle_token current_session get_valid get_by_id issue_jwt_for_user get_group_ids_as_ints
    get_user_group_ids domain_user_to_jwt_user_info query has_role bytes_beq hash_session_token hex
    to_micros
minted_means_session_example =
    minted_means_session test_platform test_settings (pgx_users test_platform 30)
      (pgx_sessions test_platform 30) test_browser (test_request (str "AQID")) with_session
      after_token answer none refl

cookie_logs_in_example :
    (u : User) × (s : App Db) × (authenticate_oauth_user test_platform test_settings
        (pgx_users test_platform 9)
        (str "github")
        (str "c")
        (callback_url test_platform test_browser (str "github"))
        test_app.store
      ≡ (ok u, s.store))
    × Mints test_platform test_settings test_browser u
        (handle_token test_platform test_settings
          (pgx_users test_platform 30)
          (pgx_sessions test_platform 30)
          test_browser
          (test_request (str "AQID")))
        after_callback
unfolding handle_oauth_callback validate_and_consume is_allowed_redirect has_prefix strip_prefix
    authenticate_oauth_user config_of user_info_fetcher fetch_git_hub_user_info pick_git_hub_email
    upsert_by_provider target violation query ensure_bootstrap_admin add_role has_role bytes_beq
    Sessions.create hash_session_token new_session_token hex base64_raw_url int_beq to_micros
cookie_logs_in_example =
    cookie_logs_in test_platform test_settings test_browser 9 30 1 (2 ∷ 3 ∷ []) (test_request [])
      (test_request (str "AQID")) test_app after_callback (redirect (str "/home")) set_cookie
      (λ claims. (claims.login, refl)) refl refl refl refl
