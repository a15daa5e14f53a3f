-- ===== src/AuthService/Tests.antt =====
-- Runs and witnesses for the authentication service, over PostgreSQL.
use go_cloud_k8s_auth.Prelude.{
  Bytes, bytes_beq, true, false, bytes_eq, none, some, [], ◌∷◌, ◌≡◌, ◌≢◌, refl, arith, ◌↔◌,
}
use go_cloud_k8s_auth.Prelude.Int.{int_beq}
use go_cloud_k8s_auth.Prelude.Strings.{str, hex}
use go_cloud_k8s_auth.Prelude.Error.{ok, err, sentinel, invalid_state}
use go_cloud_k8s_auth.Domain.{User, OAuthUserInfo, admin_role}
use go_cloud_k8s_auth.Platform.{UserInfo}
use go_cloud_k8s_auth.Rbac.{has_role}
use go_cloud_k8s_auth.Storage.Db.{Db, violation, query}
use go_cloud_k8s_auth.Storage.UserRows.{target, relinked}
use go_cloud_k8s_auth.Storage.Users.{
  update, pgx_users, upsert_by_provider, add_role, get_user_group_ids, get_by_alternate_app_id,
}
use go_cloud_k8s_auth.Storage.Users.Roles.{pgx_users-UserStorageLaws}
use go_cloud_k8s_auth.StateStore.{generate, validate, validate_and_consume}
use go_cloud_k8s_auth.StateStore.History.{ticks, run}
use go_cloud_k8s_auth.Mappers.{domain_user_to_jwt_user_info}
use go_cloud_k8s_auth.OauthProviders.{
  user_info_fetcher, fetch_git_hub_user_info, pick_git_hub_email,
}
use go_cloud_k8s_auth.AuthService.{
  App, config_of, ensure_bootstrap_admin, authenticate_oauth_user, issue_jwt_for_user, admit,
  get_group_ids_as_ints, handle_callback, start_oauth, validate_token,
}
use go_cloud_k8s_auth.AuthService.Unset.{unset_roles_stay}
use go_cloud_k8s_auth.AuthService.Login.{IsAdmitted, authenticated-IsAdmitted, replay_refused}
use go_cloud_k8s_auth.AuthService.Completion.{login_completes}
use go_cloud_k8s_auth.AuthService.Issued.{IsTokenOf, callback_issued}
use go_cloud_k8s_auth.AuthService.Tokens.{validate_token_iff}
use go_cloud_k8s_auth.Fixtures.{
  uuid, alice, alice_email, test_platform, test_settings, test_app, two_users,
}

-- Alice after a login: linked again, and granted the role "admin".
abbrev promoted : User
promoted = record alice { roles = some (str "user" ∷ str "admin" ∷ []); last_login_at = some 9 }

abbrev after_login : Db
after_login =
    (authenticate_oauth_user test_platform test_settings (pgx_users test_platform 9) (str "github")
      (str "c") [] two_users).1

authenticated-IsAdmitted_example :
    IsAdmitted test_platform test_settings (pgx_users test_platform 9) promoted
unfolding authenticate_oauth_user config_of user_info_fetcher fetch_git_hub_user_info
    pick_git_hub_email upsert_by_provider target violation query ensure_bootstrap_admin add_role
    has_role bytes_beq int_beq
authenticated-IsAdmitted_example =
    authenticated-IsAdmitted test_platform test_settings (pgx_users test_platform 9)
      (pgx_users-UserStorageLaws test_platform 9) (str "github") (str "c") [] two_users after_login
      promoted refl

replay_refused_example :
    (handle_callback test_platform test_settings
      (pgx_users test_platform 9)
      9
      (str "github")
      (str "c")
      (str "s")
      (record {
        states =
            run
              ((5, ticks) ∷ [])
              (handle_callback test_platform test_settings
                (pgx_users test_platform 9)
                4
                (str "github")
                (str "c")
                (str "s")
                test_app).1.states;
        store = two_users;
      })).0
    ≡ err (sentinel invalid_state)
replay_refused_example =
    replay_refused test_platform test_settings (pgx_users test_platform 9) 4 9 (str "github")
      (str "github") (str "c") (str "c") (str "s") test_app ((5, ticks) ∷ []) two_users (tt, tt)

abbrev after_callback : App Db
after_callback =
    (handle_callback test_platform test_settings (pgx_users test_platform 9) 4 (str "github")
      (str "c") (str "s") test_app).1

callback_issued_example :
    ((validate_and_consume 4 (str "s") (str "github") test_app.states).0 ≢ none)
    × IsAdmitted test_platform test_settings (pgx_users test_platform 9) promoted
    × IsTokenOf test_platform test_settings (pgx_users test_platform 9) promoted alice_email
unfolding handle_callback validate validate_and_consume issue_jwt_for_user get_group_ids_as_ints
    get_user_group_ids authenticate_oauth_user config_of user_info_fetcher fetch_git_hub_user_info
    pick_git_hub_email upsert_by_provider target violation query ensure_bootstrap_admin add_role
    has_role bytes_beq domain_user_to_jwt_user_info int_beq
callback_issued_example =
    callback_issued test_platform test_settings (pgx_users test_platform 9)
      (pgx_users-UserStorageLaws test_platform 9) 4 (str "github") (str "c") (str "s") alice_email
      promoted test_app after_callback refl

validate_token_iff_example :
    (validate_token test_platform test_settings (pgx_users test_platform 9) alice_email two_users
      ≡ (ok (true, some alice), two_users))
    ↔ ((claims : UserInfo) × (test_platform.parse_token alice_email ≡ ok claims)
        × (get_by_alternate_app_id test_platform 9 claims.user_id two_users ≡ (ok alice, two_users))
        × (alice.is_active ≡ true))
validate_token_iff_example =
    validate_token_iff test_platform test_settings (pgx_users test_platform 9) alice_email alice
      two_users two_users

alice_validated :
    validate_token test_platform test_settings (pgx_users test_platform 9) alice_email two_users
    ≡ (ok (true, some alice), two_users)
unfolding validate_token get_by_alternate_app_id query bytes_beq int_beq
alice_validated = refl

-- Random bytes, and the login that starts with them.
abbrev drawn : Bytes
drawn = 1 ∷ 2 ∷ []

abbrev started_app : App Db
started_app =
    (start_oauth test_platform test_settings (pgx_users test_platform 9) (ok drawn) 3 (str "github")
      [] test_app).1

-- The store ticks before the callback.
abbrev called_app : App Db
called_app = record started_app { states = run ((7, ticks) ∷ []) started_app.states }

login_completes_example :
    ((start_oauth test_platform test_settings
        (pgx_users test_platform 9)
        (ok drawn)
        3
        (str "github")
        []
        test_app).0
      ≡ ok (hex drawn, hex drawn))
    × ((handle_callback test_platform test_settings
          (pgx_users test_platform 9)
          9
          (str "github")
          (str "c")
          (hex drawn)
          called_app).0
        ≡ ok (alice_email, promoted))
unfolding config_of run authenticate_oauth_user issue_jwt_for_user get_group_ids_as_ints
    get_user_group_ids user_info_fetcher fetch_git_hub_user_info pick_git_hub_email
    upsert_by_provider target violation query ensure_bootstrap_admin add_role has_role bytes_beq
    domain_user_to_jwt_user_info start_oauth generate int_beq
login_completes_example =
    login_completes test_platform test_settings (pgx_users test_platform 9) drawn 3 9 (str "github")
      [] (str "c")
      (record {
        client_id = str "id";
        client_secret = str "secret";
        redirect_url = [];
        scopes = [];
        endpoint = str "github";
      })
      ((7, ticks) ∷ []) test_app called_app promoted alice_email after_login refl (tt, tt)
      (omega arith, tt) (omega arith) refl refl refl

-- Alice, whose e-mail is listed, is updated without roles, and logs in again.
abbrev plain_alice : User
plain_alice = record alice { roles = none }

abbrev alices_profile : OAuthUserInfo
alices_profile = record {
  provider = str "github";
  provider_id = str "7";
  email = alice_email;
  name = [];
  avatar_url = [];
  email_verified = true;
}

abbrev after_update : Db
after_update = (update test_platform 5 (uuid 1) plain_alice two_users).1

unset_roles_stay_example :
    let w = relinked 9 alices_profile plain_alice in
    (w.roles ≡ none) × (has_role w.roles admin_role ≡ false)
unfolding update upsert_by_provider target violation query ensure_bootstrap_admin add_role bytes_beq
    int_beq admit
unset_roles_stay_example =
    unset_roles_stay test_platform test_settings 9 5 (uuid 1) plain_alice plain_alice
      (relinked 9 alices_profile plain_alice) alices_profile two_users after_update
      (admit test_platform test_settings (pgx_users test_platform 9) alices_profile after_update).1
      refl refl refl refl
