-- ===== src/Connect/Pats/Keeps.antt =====
-- pkg/auth/pat_connect_server.go over storages that keep a predicate.
use go_cloud_k8s_auth.Prelude.{ℕ, Bytes, List, ◌==◌, arith}
use go_cloud_k8s_auth.Prelude.Int.{ℤ, pos, int_eq}
use go_cloud_k8s_auth.Prelude.Error.{Result}
use go_cloud_k8s_auth.Prelude.Keeps.{Keeps, Keeps-return, Keeps-if}
use go_cloud_k8s_auth.Domain.{Time}
use go_cloud_k8s_auth.Platform.{Platform}
use go_cloud_k8s_auth.Storage.{UserStorage, PatStorage}
use go_cloud_k8s_auth.Storage.Keeps.{UsersKeep, PatsKeep}
use go_cloud_k8s_auth.PatService.Keeps
use go_cloud_k8s_auth.Connect.{
  Context, refuse, unauthenticated, fail, get_user_from_context, internal,
}
use go_cloud_k8s_auth.Connect.Keeps.{Keeps-serve, Keeps-then}
use go_cloud_k8s_auth.Connect.Pats.{
  current_user_uuid, introspect_token, create_personal_access_token, list_personal_access_tokens,
  revoke_personal_access_token, parse_pat_id, create_code, revoke_code,
}

module _ {S : Type 0} (P : S → Type 0) (pf : Platform) (pats : PatStorage S) (store : UserStorage S)
    (keeps : PatsKeep P pats) (reads : UsersKeep P store) where
  caller-Keeps : (ctx : Context) → Keeps P (current_user_uuid pf pats store ctx)
  unfolding current_user_uuid
  caller-Keeps ctx =
      Keeps-if P ((get_user_from_context ctx).0 == pos 0) (refuse unauthenticated) _
        (Keeps-return P (fail unauthenticated))
        (Keeps-then P _ _ (Keeps-serve P (λ _. unauthenticated) _ (reads.get_by_alternate_app_id _))
          λ _. Keeps-return P _)

  parses : (text : Bytes) → Keeps P (parse_pat_id pf pats store text)
  unfolding parse_pat_id
  parses text = record { after = λ s p. ground (arith, p) }

  pub introspect-Keeps :
      (now : Time) (token : Bytes) → Keeps P (introspect_token pf pats store now token)
  unfolding introspect_token
  introspect-Keeps now token =
      Keeps-then P _ _
        (Keeps-serve P (λ _. internal) _
          (Keeps.introspect-Keeps P pf pats store keeps reads now token))
        λ _. Keeps-return P _

  pub create-Keeps :
      (draw : ℕ → Result ℕ) (now : Time) (ctx : Context) (name : Bytes) (scopes : List Bytes)
      (days : ℤ)
      → Keeps P (create_personal_access_token pf pats store draw now ctx name scopes days)
  unfolding create_personal_access_token
  create-Keeps draw now ctx name scopes days = Keeps-then P _ _ (caller-Keeps ctx) λ id.
      Keeps-then P _ _
        (Keeps-serve P create_code _
          (Keeps.create-Keeps P pf pats store keeps reads draw now id name scopes days))
        λ _. Keeps-return P _

  pub list-Keeps : (ctx : Context) → Keeps P (list_personal_access_tokens pf pats store ctx)
  unfolding list_personal_access_tokens
  list-Keeps ctx = Keeps-then P _ _ (caller-Keeps ctx) λ id.
      Keeps-then P _ _
        (Keeps-serve P (λ _. internal) _ (Keeps.list-Keeps P pf pats store keeps reads id))
        λ _. Keeps-return P _

  pub revoke-Keeps :
      (ctx : Context) (id : Bytes) → Keeps P (revoke_personal_access_token pf pats store ctx id)
  unfolding revoke_personal_access_token
  revoke-Keeps ctx id = Keeps-then P _ _ (caller-Keeps ctx) λ user_id.
      Keeps-then P _ _ (parses id) λ uuid.
        Keeps-then P _ _
          (Keeps-serve P revoke_code _
            (Keeps.revoke-Keeps P pf pats store keeps reads uuid user_id))
          λ _. Keeps-return P _
