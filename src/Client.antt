-- ===== src/Client.antt =====
-- cmd/exampleClient/main.go: the requests that the example client sends.
pub mod Served
mod Tests
use go_cloud_k8s_auth.Prelude.{
  ℕ, Bytes, Bool, true, false, ◌++◌, List, [], ◌∷◌, if◌then◌else◌, ◌==◌, bytes_eq,
}
use go_cloud_k8s_auth.Prelude.Int.{ℤ, to_int32}
use go_cloud_k8s_auth.Prelude.Strings.{str, is_empty}
use go_cloud_k8s_auth.Server.{
  auth_service_start_oauth_procedure, auth_service_validate_token_procedure,
  auth_service_get_current_user_procedure, user_service_list_procedure,
}

-- The parsed flags besides the server's URL.
pub record Flags : Type 0 where
  pub cmd : Bytes
  pub provider : Bytes
  pub token : Bytes
  pub limit : ℤ
  pub offset : ℤ

pub data Message : Type 0 where
  start_oauth : Bytes → Message
  validate : Bytes → Message
  current_user : Message
  -- limit and offset
  list_users : ℤ → ℤ → Message

-- What a command does: a call of a procedure with an Authorization header, which is empty where none
-- is set, or an exit without one.
pub data Effect : Type 0 where
  sends : Bytes → Bytes → Message → Effect
  token_required unknown_command : Effect

-- The header that the client's `NewAuthInterceptor` leaves; `main` installs it only for a token.
unfoldable pub authorization : Bytes → Bytes
authorization token = if is_empty token then [] else str "Bearer " ++ token

-- The `switch *cmd` of `main`.
unfoldable pub run : Flags → Effect
unfolding authorization
run f =
    if f.cmd == str "start-oauth"
    then sends auth_service_start_oauth_procedure (authorization f.token) (start_oauth f.provider)
    else if f.cmd == str "validate"
    then if is_empty f.token
      then token_required
      else sends auth_service_validate_token_procedure (authorization f.token) (validate f.token)
    else if f.cmd == str "current-user"
    then if is_empty f.token
      then token_required
      else sends auth_service_get_current_user_procedure (authorization f.token) current_user
    else if f.cmd == str "list-users"
    then if is_empty f.token
      then token_required
      else sends user_service_list_procedure (authorization f.token)
          (list_users (to_int32 f.limit) (to_int32 f.offset))
    else unknown_command
