-- ===== src/Server/Services.antt =====
-- gen/auth/v1/authv1connect/auth.connect.go: the HTTP handlers of the two services, as `main` builds
-- them, every procedure behind the interceptor.
use go_cloud_k8s_auth.Prelude.{
  Bytes, ◌==◌, bytes_eq, Option, none, some, List, [], ◌∷◌, if◌then◌else◌,
}
use go_cloud_k8s_auth.AuthService.{App}
use go_cloud_k8s_auth.Connect.{invalid_argument, fail, Handler, Context, background, guarded}
use go_cloud_k8s_auth.Connect.Users
use go_cloud_k8s_auth.Connect.Auth
use go_cloud_k8s_auth.Connect.Pats
use go_cloud_k8s_auth.Server.{
  Answer, of_auth, of_pats, of_users, Moment, Wiring, list_default_limit, answering, in_app,
  auth_service_start_oauth_procedure, auth_service_oauth_callback_procedure,
  auth_service_validate_token_procedure, auth_service_get_current_user_procedure,
  auth_service_introspect_token_procedure, auth_service_create_personal_access_token_procedure,
  auth_service_list_personal_access_tokens_procedure,
  auth_service_revoke_personal_access_token_procedure, user_service_list_procedure,
  user_service_create_procedure, user_service_get_procedure, user_service_update_procedure,
  user_service_delete_procedure, user_service_count_procedure,
  user_service_get_by_external_id_procedure,
}

-- A case of the generated `switch r.URL.Path`: the path, and the handler of a body.
abbrev pub Case : Type 0 → Type 0
Case S = Bytes × (Bytes → Handler (App S) Answer)

-- `switch r.URL.Path { … default: http.NotFound(w, r) }`
unfoldable pub switch : {S : Type 0} → Bytes → List (Case S) → Option (Case S)
switch path [] = none
switch path ((procedure, h) ∷ cases) =
    if path == procedure then some (procedure, h) else switch path cases

-- At the moment of a request.
module _ {S : Type 0} (w : Wiring S) (m : Moment) where
  -- `connect.NewUnaryHandler`: the message is decoded, and then goes through the interceptor.
  abbrev pub unary :
      {M A : Type 0}
      → Bytes
      → (Bytes → Option M)
      → (A → Answer)
      → (Context → M → Handler (App S) A)
      → Case S
  unary procedure decode answer next = (
    procedure,
    λ body s. elim (decode body) [
      | none ↦ (fail invalid_argument, s)
      | some msg ↦
          guarded w.platform procedure m.authorization background
            (λ ctx. answering answer (next ctx msg)) s
    ],
  )

  -- `NewAuthServiceHandler`
  abbrev pub new_auth_service_handler : List (Case S)
  new_auth_service_handler =
      unary auth_service_start_oauth_procedure w.codec.start_oauth of_auth
        (λ ctx (provider, redirect_url).
          Auth.start_oauth w.platform w.settings (w.users m.now) m.random m.now provider
            redirect_url)
      ∷ unary auth_service_oauth_callback_procedure w.codec.oauth_callback of_auth
          (λ ctx (provider, code, state).
            Auth.oauth_callback w.platform w.settings (w.users m.now) m.now provider code state)
      ∷ unary auth_service_validate_token_procedure w.codec.validate_token of_auth
          (λ ctx token. Auth.validate_token w.platform w.settings (w.users m.now) token)
      ∷ unary auth_service_get_current_user_procedure w.codec.is_message of_auth
          (λ ctx msg. Auth.get_current_user w.platform w.settings (w.users m.now) ctx)
      ∷ unary auth_service_introspect_token_procedure w.codec.introspect_token of_pats (λ ctx token.
        in_app (Pats.introspect_token w.platform (w.pats m.now) (w.users m.now) m.now token))
      ∷ unary auth_service_create_personal_access_token_procedure
          w.codec.create_personal_access_token of_pats
          (λ ctx (name, scopes, days). in_app (
            Pats.create_personal_access_token w.platform (w.pats m.now) (w.users m.now) m.draw m.now
              ctx name scopes days))
      ∷ unary auth_service_list_personal_access_tokens_procedure w.codec.is_message of_pats
          (λ ctx msg.
            in_app (Pats.list_personal_access_tokens w.platform (w.pats m.now) (w.users m.now) ctx))
      ∷ unary auth_service_revoke_personal_access_token_procedure
          w.codec.revoke_personal_access_token of_pats
          (λ ctx id.
            in_app
              (Pats.revoke_personal_access_token w.platform (w.pats m.now) (w.users m.now) ctx id))
      ∷ []

  -- `NewUserServiceHandler`
  abbrev pub new_user_service_handler : List (Case S)
  new_user_service_handler =
      unary user_service_list_procedure w.codec.list of_users (λ ctx (offset, limit, disabled).
        in_app (Users.list w.platform (w.users m.now) list_default_limit ctx offset limit disabled))
      ∷ unary user_service_create_procedure w.codec.create of_users (λ ctx message.
        in_app (Users.create w.platform (w.users m.now) list_default_limit ctx message))
      ∷ unary user_service_get_procedure w.codec.get of_users
          (λ ctx id. in_app (Users.get w.platform (w.users m.now) list_default_limit ctx id))
      ∷ unary user_service_update_procedure w.codec.update of_users (λ ctx (id, message).
        in_app (Users.update w.platform (w.users m.now) list_default_limit ctx id message))
      ∷ unary user_service_delete_procedure w.codec.delete of_users
          (λ ctx id. in_app (Users.delete w.platform (w.users m.now) list_default_limit ctx id))
      ∷ unary user_service_count_procedure w.codec.count of_users (λ ctx inactivated.
        in_app (Users.count w.platform (w.users m.now) list_default_limit ctx inactivated))
      ∷ unary user_service_get_by_external_id_procedure w.codec.get_by_external_id of_users
          (λ ctx id.
            in_app (Users.get_by_external_id w.platform (w.users m.now) list_default_limit ctx id))
      ∷ []
