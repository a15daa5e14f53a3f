-- ===== src/Connect/Auth/Keeps.antt =====
-- pkg/auth/auth_connect_server.go over a storage that keeps a predicate.
use go_cloud_k8s_auth.Prelude.{Bytes, ◌==◌}
use go_cloud_k8s_auth.Prelude.Int.{pos, int_eq}
use go_cloud_k8s_auth.Prelude.Error.{Result}
use go_cloud_k8s_auth.Prelude.Keeps.{Keeps, Keeps-return, Keeps-if}
use go_cloud_k8s_auth.Domain.{Time, OAuthUserInfo}
use go_cloud_k8s_auth.Platform.{Platform}
use go_cloud_k8s_auth.Storage.{UserStorage}
use go_cloud_k8s_auth.Storage.Keeps.{UsersKeep}
use go_cloud_k8s_auth.AuthService.{Settings, admit}
use go_cloud_k8s_auth.AuthService.Keeps.{Stored, Keeps-on_store}
use go_cloud_k8s_auth.AuthService.Keeps
use go_cloud_k8s_auth.Connect.{
  Context, refuse, unauthenticated, fail, get_user_from_context, internal,
}
use go_cloud_k8s_auth.Connect.Keeps.{Keeps-serve, Keeps-then}
use go_cloud_k8s_auth.Connect.Auth.{
  start_oauth, oauth_callback, validate_token, get_current_user, start_code, callback_code,
  current_code,
}

module _ {S : Type 0} (P : S → Type 0) (pf : Platform) (cfg : Settings) (store : UserStorage S)
    (reads : UsersKeep P store) where
  pub start-Keeps :
      (random : Result Bytes) (now : Time) (provider url : Bytes)
      → Keeps (Stored P) (start_oauth pf cfg store random now provider url)
  unfolding start_oauth
  start-Keeps random now provider url =
      Keeps-then (Stored P) _ _
        (Keeps-serve (Stored P) start_code _
          (Keeps.start-Keeps P pf cfg store reads random now provider url))
        λ _. Keeps-return (Stored P) _

  pub callback-Keeps :
      ((info : OAuthUserInfo) → Keeps P (admit pf cfg store info))
      → (now : Time) (provider code state : Bytes)
      → Keeps (Stored P) (oauth_callback pf cfg store now provider code state)
  unfolding oauth_callback
  callback-Keeps grants now provider code state =
      Keeps-then (Stored P) _ _
        (Keeps-serve (Stored P) callback_code _
          (Keeps.callback-Keeps P pf cfg store reads grants now provider code state))
        λ _. Keeps-return (Stored P) _

  pub validate-Keeps : (token : Bytes) → Keeps (Stored P) (validate_token pf cfg store token)
  unfolding validate_token
  validate-Keeps token =
      Keeps-then (Stored P) _ _
        (Keeps-serve (Stored P) (λ _. internal) _
          (Keeps-on_store P _ (Keeps.validate-Keeps P pf cfg store reads token)))
        λ _. Keeps-return (Stored P) _

  pub current-Keeps : (ctx : Context) → Keeps (Stored P) (get_current_user pf cfg store ctx)
  unfolding get_current_user
  current-Keeps ctx =
      Keeps-if (Stored P) ((get_user_from_context ctx).0 == pos 0) (refuse unauthenticated) _
        (Keeps-return (Stored P) (fail unauthenticated))
        (Keeps-then (Stored P) _ _
          (Keeps-serve (Stored P) current_code _
            (Keeps-on_store P _ (Keeps.current-Keeps P pf cfg store reads _)))
          λ _. Keeps-return (Stored P) _)
