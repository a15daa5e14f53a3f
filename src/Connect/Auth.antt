-- ===== src/Connect/Auth.antt =====
-- pkg/auth/auth_connect_server.go: `AuthConnectServer` without the personal access tokens.
pub mod Keeps
use go_cloud_k8s_auth.Prelude.{Bytes, ◌==◌, bytes_eq, Bool, ◌||◌, Option, some, if◌then◌else◌}
use go_cloud_k8s_auth.Prelude.Int.{pos, int_eq}
use go_cloud_k8s_auth.Prelude.Error.{
  Error, Result, is, provider_error, invalid_state, user_disabled, email_in_use, user_not_found,
}
use go_cloud_k8s_auth.Domain.{Time}
use go_cloud_k8s_auth.Platform.{Platform}
use go_cloud_k8s_auth.Storage.{UserStorage}
use go_cloud_k8s_auth.Mappers.{ProtoUser, domain_user_to_proto}
use go_cloud_k8s_auth.AuthService
use go_cloud_k8s_auth.AuthService.{App, Settings, on_store}
use go_cloud_k8s_auth.Connect.{
  Code, invalid_argument, permission_denied, unauthenticated, unavailable, internal, Handler,
  respond, refuse, serve, ◌>>=◌, Context, get_user_from_context,
}

pub data Response : Type 0 where
  started : Bytes → Bytes → Response
  logged_in : Bytes → Option ProtoUser → Response
  validated : Bool → Option ProtoUser → Response
  current : Option ProtoUser → Response

abbrev pub start_code : Error → Code
start_code e = if is e provider_error then invalid_argument else internal

abbrev pub callback_code : Error → Code
callback_code e =
    if is e invalid_state
    then invalid_argument
    else if is e user_disabled || is e email_in_use
    then permission_denied
    else if is e provider_error
    then unavailable
    else internal

abbrev pub current_code : Error → Code
current_code e = if is e user_not_found then Code.not_found else internal

module _ {S : Type 0} (pf : Platform) (cfg : Settings) (store : UserStorage S) where
  unfoldable pub start_oauth : Result Bytes → Time → Bytes → Bytes → Handler (App S) Response
  start_oauth random now provider redirect_url = do
    (auth_url, state) ←
        serve start_code (AuthService.start_oauth pf cfg store random now provider redirect_url)
    respond (started auth_url state)

  unfoldable pub oauth_callback : Time → Bytes → Bytes → Bytes → Handler (App S) Response
  oauth_callback now provider code state = do
    (jwt, user) ←
        serve callback_code (AuthService.handle_callback pf cfg store now provider code state)
    respond (logged_in jwt (domain_user_to_proto pf (some user)))

  unfoldable pub validate_token : Bytes → Handler (App S) Response
  validate_token token = do
    (valid, user) ← serve (λ _. internal) (on_store (AuthService.validate_token pf cfg store token))
    respond (validated valid (domain_user_to_proto pf user))

  unfoldable pub get_current_user : Context → Handler (App S) Response
  get_current_user ctx =
      let user_id = (get_user_from_context ctx).0 in
      if user_id == pos 0 then refuse unauthenticated else do
        user ← serve current_code (on_store (AuthService.get_current_user pf cfg store user_id))
        respond (current (domain_user_to_proto pf (some user)))
