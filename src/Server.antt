-- ===== src/Server.antt =====
-- The composition of the parts in `main` of cmd/goCloudAuthServer/goCloudAuthServer.go: the routes,
-- and behind them the handlers generated in gen/auth/v1/authv1connect/auth.connect.go, with the
-- interceptor around every procedure, and the browser handlers.
pub mod Services
pub mod Routes
pub mod Keeps
pub mod Runs
pub mod Stores
pub mod Logout
pub mod Safety
pub mod Access
mod Tests
use go_cloud_k8s_auth.Prelude.{
  ℕ, Bytes, ◌==◌, bytes_eq, Bool, true, false, Option, none, some, List, if◌then◌else◌,
}
use go_cloud_k8s_auth.Prelude.Int.{ℤ, pos}
use go_cloud_k8s_auth.Prelude.Strings.{str}
use go_cloud_k8s_auth.Prelude.Error.{Result}
use go_cloud_k8s_auth.Domain.{Time}
use go_cloud_k8s_auth.Platform.{Platform}
use go_cloud_k8s_auth.Storage.{UserStorage, SessionStorage, PatStorage}
use go_cloud_k8s_auth.Mappers.{ProtoUser}
use go_cloud_k8s_auth.AuthService.{App, Settings}
use go_cloud_k8s_auth.Browser.{BrowserConfig, Request, Page}
use go_cloud_k8s_auth.Connect.{
  Code, invalid_argument, Reply, reply, fail, Handler, Context, background, guarded,
}
use go_cloud_k8s_auth.Connect.Users
use go_cloud_k8s_auth.Connect.Auth
use go_cloud_k8s_auth.Connect.Pats

abbrev pub auth_service_start_oauth_procedure : Bytes
auth_service_start_oauth_procedure = str "/auth.v1.AuthService/StartOAuth"

abbrev pub auth_service_oauth_callback_procedure : Bytes
auth_service_oauth_callback_procedure = str "/auth.v1.AuthService/OAuthCallback"

abbrev pub auth_service_validate_token_procedure : Bytes
auth_service_validate_token_procedure = str "/auth.v1.AuthService/ValidateToken"

abbrev pub auth_service_get_current_user_procedure : Bytes
auth_service_get_current_user_procedure = str "/auth.v1.AuthService/GetCurrentUser"

abbrev pub auth_service_introspect_token_procedure : Bytes
auth_service_introspect_token_procedure = str "/auth.v1.AuthService/IntrospectToken"

abbrev pub auth_service_create_personal_access_token_procedure : Bytes
auth_service_create_personal_access_token_procedure =
    str "/auth.v1.AuthService/CreatePersonalAccessToken"

abbrev pub auth_service_list_personal_access_tokens_procedure : Bytes
auth_service_list_personal_access_tokens_procedure =
    str "/auth.v1.AuthService/ListPersonalAccessTokens"

abbrev pub auth_service_revoke_personal_access_token_procedure : Bytes
auth_service_revoke_personal_access_token_procedure =
    str "/auth.v1.AuthService/RevokePersonalAccessToken"

abbrev pub user_service_list_procedure : Bytes
user_service_list_procedure = str "/auth.v1.UserService/List"

abbrev pub user_service_create_procedure : Bytes
user_service_create_procedure = str "/auth.v1.UserService/Create"

abbrev pub user_service_get_procedure : Bytes
user_service_get_procedure = str "/auth.v1.UserService/Get"

abbrev pub user_service_update_procedure : Bytes
user_service_update_procedure = str "/auth.v1.UserService/Update"

abbrev pub user_service_delete_procedure : Bytes
user_service_delete_procedure = str "/auth.v1.UserService/Delete"

abbrev pub user_service_count_procedure : Bytes
user_service_count_procedure = str "/auth.v1.UserService/Count"

abbrev pub user_service_get_by_external_id_procedure : Bytes
user_service_get_by_external_id_procedure = str "/auth.v1.UserService/GetByExternalId"

-- Package connect's decoding of a request's body as the message of a procedure, `none` where it fails.
pub record Codec : Type 0 where
  -- provider and redirect URL
  pub start_oauth : Bytes → Option (Bytes × Bytes)
  -- provider, code and state
  pub oauth_callback : Bytes → Option (Bytes × Bytes × Bytes)
  pub validate_token : Bytes → Option Bytes
  pub introspect_token : Bytes → Option Bytes
  -- a message without fields
  pub is_message : Bytes → Option (Unit {0})
  -- name, scopes and days to expiry
  pub create_personal_access_token : Bytes → Option (Bytes × List Bytes × ℤ)
  pub revoke_personal_access_token : Bytes → Option Bytes
  -- offset, limit and the disabled flag
  pub list : Bytes → Option (ℤ × ℤ × Bool)
  pub create : Bytes → Option (Option ProtoUser)
  pub get : Bytes → Option Bytes
  pub update : Bytes → Option (Bytes × Option ProtoUser)
  pub delete : Bytes → Option Bytes
  pub count : Bytes → Option Bool
  pub get_by_external_id : Bytes → Option ℤ

pub data Answer : Type 0 where
  of_auth : Auth.Response → Answer
  of_pats : Pats.Response → Answer
  of_users : Users.Response → Answer

-- What one request finds besides the state: the time, the outcomes of the random generators, and the
-- Authorization header, empty where it is missing.
pub record Moment : Type 0 where
  pub now : Time
  pub random : Result Bytes
  pub draw : ℕ → Result ℕ
  pub authorization : Bytes

-- What `main` puts together: the platform, the settings of the environment, the three storages at the
-- time of a request, and the decoding.
pub record Wiring (S : Type 0) : Type 0 where
  pub platform : Platform
  pub settings : Settings
  pub users : Time → UserStorage S
  pub sessions : Time → SessionStorage S
  pub pats : Time → PatStorage S
  pub browser : BrowserConfig
  pub codec : Codec

-- The default limit that `main` passes to `NewUserBusinessService`.
abbrev pub list_default_limit : ℤ
list_default_limit = pos 50

module _ {S A : Type 0} where
  -- A handler of a server as one of the application.
  abbrev pub answering : (A → Answer) → Handler S A → Handler S Answer
  answering f m s = let (r, t) = m s in elim r [ reply a ↦ (reply (f a), t) | fail c ↦ (fail c, t) ]

  abbrev pub in_app : Handler S A → Handler (App S) A
  in_app m s = let (r, t) = m s.store in (r, record s { store = t })
