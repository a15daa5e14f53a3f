-- ===== src/Server/Tests.antt =====
-- Runs and witnesses for the server, over PostgreSQL.
use go_cloud_k8s_auth.Prelude.{
  arith, bytes_beq, [], ◌∷◌, ◌≡◌, sym, subst, length, refl, All, bytes_eq,
}
use go_cloud_k8s_auth.Prelude.Int.{int_beq, int_eq}
use go_cloud_k8s_auth.Prelude.Strings.{
  str, has_prefix, strip_prefix, trim_prefix, hex, base64_raw_url,
}
use go_cloud_k8s_auth.Prelude.Error.{ok}
use go_cloud_k8s_auth.Rbac.{has_role}
use go_cloud_k8s_auth.Storage.Db.{Db, query, violation}
use go_cloud_k8s_auth.Storage.Users.Rows.{UniqueUsers}
use go_cloud_k8s_auth.Storage.Owned.{OwnedRows}
use go_cloud_k8s_auth.Storage.Users.Admins.{IsNoNewAdmin}
use go_cloud_k8s_auth.AuthService.{
  App, Settings, authenticate_oauth_user, config_of, ensure_bootstrap_admin,
}
use go_cloud_k8s_auth.Connect.Users.{delete, require_admin}
use go_cloud_k8s_auth.UserService
use go_cloud_k8s_auth.Storage.Sessions
use go_cloud_k8s_auth.Storage.Sessions.{
  hash_session_token, new_session_token, new_row, pgx_sessions,
}
use go_cloud_k8s_auth.Storage.Users
use go_cloud_k8s_auth.Storage.UserRows.{target}
use go_cloud_k8s_auth.Storage.Users.{pgx_users, upsert_by_provider, add_role, exist}
use go_cloud_k8s_auth.StateStore.{validate_and_consume}
use go_cloud_k8s_auth.Browser.{is_allowed_redirect, failed}
use go_cloud_k8s_auth.Browser.Handlers.{handle_oauth_callback, handle_token, handle_logout}
use go_cloud_k8s_auth.OauthProviders.{
  user_info_fetcher, fetch_git_hub_user_info, pick_git_hub_email,
}
use go_cloud_k8s_auth.Connect.{intercept, get_user_from_context, is_public}
use go_cloud_k8s_auth.Server.{Moment, Wiring, user_service_delete_procedure}
use go_cloud_k8s_auth.Server.Services.{switch}
use go_cloud_k8s_auth.Server.Routes.{dispatch, transcoded, Http, serve, call}
use go_cloud_k8s_auth.Server.Runs.{pgx_wiring, Run, here, next, request}
use go_cloud_k8s_auth.Server.Safety.{Anyone, Run-UniqueUsers, Run-OwnedRows, Run-IsNoNewAdmin}
use go_cloud_k8s_auth.Server.Logout.{DrawsOther, logout_is_final}
use go_cloud_k8s_auth.Server.Access.{IsRefused, call-IsRefused}
use go_cloud_k8s_auth.Fixtures.{
  test_codec, test_network, test_wiring, moment_with, uuid, test_platform, test_settings, test_app,
  two_users, test_browser, test_request,
}

-- No administrator is named in the environment.
abbrev plain_settings : Settings
plain_settings = record test_settings { bootstrap_admin_emails = [] }

abbrev plain_wiring : Wiring Db
plain_wiring = pgx_wiring test_platform plain_settings test_browser test_codec

abbrev callback_http : Http
callback_http = record {
  verb = str "GET";
  path = str "/auth/oauth/github/callback";
  body = [];
  form = test_request [];
}

-- A deletion of the user with the id 1.
abbrev delete_http : Http
delete_http = record {
  verb = str "POST";
  path = user_service_delete_procedure;
  body = uuid 1;
  form = test_request [];
}

-- Alice logs in with her browser, and Bob, an administrator, deletes her.
abbrev logged_in : App Db
logged_in = (serve test_wiring test_network [] [] (moment_with []) callback_http test_app).1

abbrev deleted : App Db
deleted =
    (serve test_wiring test_network [] [] (moment_with (str "Bearer bo@x.org")) delete_http
      logged_in).1

both :
    Run test_wiring test_network [] []
      (Anyone test_platform test_settings test_browser test_codec test_network [] [])
      test_app
      deleted
both =
    next (next here (request (moment_with []) callback_http tt))
      (request (moment_with (str "Bearer bo@x.org")) delete_http tt)

two_users-UniqueUsers : UniqueUsers two_users
two_users-UniqueUsers = (
  (
    record {
      id = λ e. ground arith;
      app_id = λ e. ground arith;
      email = λ e. ground arith;
      identity = λ e. ground arith;
    },
    tt,
  ),
  (tt, tt),
)

Run-UniqueUsers_example : UniqueUsers deleted.store
Run-UniqueUsers_example =
    Run-UniqueUsers test_platform test_settings test_browser test_codec test_network [] [] both
      two_users-UniqueUsers

Run-OwnedRows_example : OwnedRows deleted.store
Run-OwnedRows_example =
    Run-OwnedRows test_platform test_settings test_browser test_codec test_network [] [] both
      (tt, tt)

abbrev after_login : App Db
after_login = (serve plain_wiring test_network [] [] (moment_with []) callback_http test_app).1

Run-IsNoNewAdmin_example : All (IsNoNewAdmin two_users.users) after_login.store.users
Run-IsNoNewAdmin_example =
    Run-IsNoNewAdmin test_platform plain_settings test_browser test_codec test_network [] [] refl
      (next here (request (moment_with []) callback_http (λ token claims e. cc)))

call-IsRefused_example :
    IsRefused test_wiring (moment_with []) test_app (
      call test_wiring test_network
        (moment_with [])
        user_service_delete_procedure
        (uuid 1)
        test_app)
unfolding is_public bytes_beq
call-IsRefused_example =
    call-IsRefused test_wiring (moment_with []) test_network user_service_delete_procedure (uuid 1)
      test_app refl (λ claims (token, e, p). cc)

-- The login makes a session, and the deletion removes it with its user.
session_count : (length logged_in.store.sessions ≡ 1) × (length deleted.store.sessions ≡ 0)
unfolding serve dispatch transcoded call switch has_prefix strip_prefix bytes_beq is_public
    intercept handle_oauth_callback validate_and_consume is_allowed_redirect authenticate_oauth_user
    config_of user_info_fetcher fetch_git_hub_user_info pick_git_hub_email upsert_by_provider target
    violation query ensure_bootstrap_admin add_role has_role Sessions.create hash_session_token
    new_session_token hex base64_raw_url trim_prefix get_user_from_context delete require_admin
    UserService.delete Users.delete exist int_beq
session_count = (refl, refl)

-- Alice with a session, whom the logout below logs out.
abbrev with_session : App Db
with_session = record test_app {
  store = record two_users {
    sessions =
        new_row test_platform 10 (hash_session_token test_platform (str "AQID")) (uuid 1) 60000 []
          [] two_users
        ∷ [];
  };
}

abbrev logged_out : App Db
logged_out =
    (handle_logout test_platform test_settings (pgx_users test_platform 20)
      (pgx_sessions test_platform 20) test_browser (test_request (str "AQID")) with_session).2

-- A moment with other random bytes.
abbrev other_moment : Moment
other_moment = record (moment_with []) { random = ok (4 ∷ 5 ∷ 6 ∷ []) }

abbrev logged_in_again : App Db
logged_in_again = (serve test_wiring test_network [] [] other_moment callback_http logged_out).1

draws_other :
    DrawsOther test_platform test_settings test_browser test_codec test_network [] []
      (str "AQID")
      other_moment
unfolding hash_session_token hex base64_raw_url
draws_other b e h =
    let same : 4 ∷ 5 ∷ 6 ∷ [] ≡ b = ground arith in
    let k : hash_session_token test_platform (base64_raw_url (4 ∷ 5 ∷ 6 ∷ []))
        ≡ hash_session_token test_platform (str "AQID") =
      subst
        (λ x.
          hash_session_token test_platform (base64_raw_url x)
          ≡ hash_session_token test_platform (str "AQID"))
        (sym same) h in
    ground arith

logout_is_final_example :
    (handle_token test_platform test_settings
      (pgx_users test_platform 30)
      (pgx_sessions test_platform 30)
      test_browser
      (test_request (str "AQID"))
      logged_in_again).0
    ≡ failed 401
logout_is_final_example =
    logout_is_final test_platform test_settings test_browser test_codec test_network [] [] 20 30
      (test_request (str "AQID")) (test_request (str "AQID")) (str "AQID") with_session
      logged_in_again refl refl refl (next here (request other_moment callback_http draws_other))
