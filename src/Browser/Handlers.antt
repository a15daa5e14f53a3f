-- ===== src/Browser/Handlers.antt =====
-- pkg/auth/browser_handlers.go: the handlers of the routes under /auth.
pub mod Safety
pub mod RoundTrip
pub mod Sessions
pub mod Keeps
mod Tests
use go_cloud_k8s_auth.Prelude.{
  ℕ, ◌*◌, ◌/◌, Bytes, ◌==◌, bytes_eq, Bool, true, false, not, ◌&&◌, ◌||◌, Option, none, some, List,
  [], ◌∷◌, ◌++◌, map, if◌then◌else◌, any, eqb,
}
use go_cloud_k8s_auth.Prelude.Int.{ℤ, pos, negsuc, is_positive}
use go_cloud_k8s_auth.Prelude.Strings.{
  str, is_empty, has_prefix, strip_prefix, ends_with, trim_right, less,
}
use go_cloud_k8s_auth.Prelude.Error.{
  Error, Result, ok, err, Action, other, is, user_disabled, email_in_use,
}
use go_cloud_k8s_auth.Domain.{Uuid, Time, User, Session, admin_role}
use go_cloud_k8s_auth.Platform.{Platform, Url, OauthConfig}
use go_cloud_k8s_auth.Rbac.{has_role}
use go_cloud_k8s_auth.Storage.{UserStorage, SessionStorage}
use go_cloud_k8s_auth.Storage.Db.{sort_by}
use go_cloud_k8s_auth.StateStore.{generate_with_redirect, validate_and_consume}
use go_cloud_k8s_auth.AuthService.{
  App, Settings, on_store, config_of, authenticate_oauth_user, issue_jwt_for_user,
}
use go_cloud_k8s_auth.Browser.{
  BrowserConfig, Request, Cookie, LoginPageProvider, TokenResponse, Response, text, failed,
  redirect, login_page, minted, logged_out, Page, provider_label, is_allowed_redirect, callback_url,
  lifetime, session_cookie, cleared_cookie, cookie_value, or_root, login_status,
}

module _ {S : Type 0} (pf : Platform) (set : Settings) (store : UserStorage S)
    (sessions : SessionStorage S) (cfg : BrowserConfig) where
  unfoldable pub current_session : Request → App S → Option Session × App S
  current_session req s = elim (cookie_value pf cfg req) [
    | none ↦ (none, s)
    | some v ↦
        let (r, t) = on_store (sessions.get_valid v) s in
        (elim r [ err _ ↦ none | ok session ↦ some session ], t)
  ]

  abbrev pub providers : List LoginPageProvider
  providers =
      sort_by (λ p q. less p.name q.name)
        (map (λ c. record { name = c.0; label = provider_label c.0 }) set.oauth_configs)

  unfoldable pub handle_login : Request → Page S
  unfolding current_session
  handle_login req s =
      let redirect_uri = or_root req.redirect_uri in
      if not (is_allowed_redirect pf cfg redirect_uri)
      then (text 400, none, s)
      else let (session, t) = current_session req s in
        elim session [
          | some _ ↦ (redirect redirect_uri, none, t)
          | none ↦ (login_page providers redirect_uri, none, t)
        ]

  unfoldable pub handle_oauth_start : Result Bytes → Time → Request → Page S
  handle_oauth_start random now req s = elim (config_of req.provider set.oauth_configs) [
    | none ↦ (text 404, none, s)
    | some c ↦
        let redirect_uri = or_root req.redirect_uri in
        if not (is_allowed_redirect pf cfg redirect_uri)
        then (text 400, none, s)
        else let (r, t) = generate_with_redirect random now req.provider redirect_uri s.states in
          let s' : App S = record s { states = t } in
          elim r [
            | err _ ↦ (text 500, none, s')
            | ok state ↦ (
              redirect (
                  pf.auth_code_url (record c { redirect_url = callback_url pf cfg req.provider })
                    state),
              none,
              s',
            )
          ]
  ]

  -- From the authenticated user on.
  establish : Result Bytes → Request → Bytes → User → Page S
  establish random req redirect_uri user s =
      let (r, t) =
        on_store (sessions.create random user.id req.user_agent req.real_ip (lifetime pf cfg)) s in
      elim r [
        | err _ ↦ (text 500, none, t)
        | ok raw_token ↦ (redirect redirect_uri, some (session_cookie pf cfg raw_token), t)
      ]

  -- From the code on.
  log_in : Result Bytes → Request → Bytes → Page S
  unfolding establish
  log_in random req redirect_uri s =
      if is_empty req.code
      then (text 400, none, s)
      else let (r, t) =
          on_store
            (authenticate_oauth_user pf set store req.provider req.code
              (callback_url pf cfg req.provider))
            s in
        elim r [
          | err e ↦ (text (login_status e), none, t)
          | ok user ↦ establish random req redirect_uri user t
        ]

  unfoldable pub handle_oauth_callback : Result Bytes → Time → Request → Page S
  unfolding log_in
  handle_oauth_callback random now req s =
      if not (is_empty req.error)
      then (text 400, none, s)
      else let (found, t) = validate_and_consume now req.state req.provider s.states in
        let s' : App S = record s { states = t } in
        elim found [
          | none ↦ (text 400, none, s')
          | some uri ↦
              let redirect_uri = or_root uri in
              if not (is_allowed_redirect pf cfg redirect_uri)
              then (text 400, none, s')
              else log_in random req redirect_uri s'
        ]

  -- From the session's user on.
  mint : User → Page S
  mint user s =
      if not user.is_active
      then (failed 401, none, s)
      else let (r, t) = on_store (issue_jwt_for_user pf set store user) s in
        elim r [
          | err _ ↦ (failed 500, none, t)
          | ok token ↦ (
            minted (record {
              token = token;
              expires_in_seconds = pf.jwt_duration * 60;
              user_id = user.alternate_app_id;
              email = user.email;
              name = user.name;
              avatar_url = user.avatar_url;
              is_admin = has_role user.roles admin_role;
            }),
            none,
            t,
          )
        ]

  unfoldable pub handle_token : Request → Page S
  unfolding current_session mint
  handle_token req s =
      let (session, t) = current_session req s in
      elim session [
        | none ↦ (failed 401, none, t)
        | some found ↦
            let (r, u) = on_store (store.get_by_id found.user_id) t in
            elim r [ err _ ↦ (failed 401, none, u) | ok user ↦ mint user u ]
      ]

  unfoldable pub handle_logout : Request → Page S
  handle_logout req s = elim (cookie_value pf cfg req) [
    | none ↦ (logged_out, some (cleared_cookie pf cfg), s)
    | some v ↦ (logged_out, some (cleared_cookie pf cfg), (on_store (sessions.revoke v) s).1)
  ]
