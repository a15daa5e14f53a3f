-- ===== src/Connect/Users/Access.antt =====
-- pkg/auth/user_connect_server.go: the guards of the procedures on users.
use go_cloud_k8s_auth.Prelude.{Bytes, Bool, true, false, Option, some, ◌≡◌, arith, bytes_eq}
use go_cloud_k8s_auth.Prelude.Int.{ℤ, int_eq, int_beq_iff, is_positive}
use go_cloud_k8s_auth.Prelude.Error.{is}
use go_cloud_k8s_auth.Domain.{User}
use go_cloud_k8s_auth.Platform.{Platform}
use go_cloud_k8s_auth.Storage.{UserStorage}
use go_cloud_k8s_auth.Mappers.{ProtoUser, domain_user_to_proto}
use go_cloud_k8s_auth.UserService
use go_cloud_k8s_auth.Connect.{
  permission_denied, reply, fail, Handler, Context, get_user_from_context, serve, ◌>>=◌, ◌>>◌,
  respond,
}
use go_cloud_k8s_auth.Connect.Invert.{>>=-reply}
use go_cloud_k8s_auth.Connect.Users.{
  Response, parse_id, map_error_to_connect, user, require_admin, require_self_or_admin, list,
  create, get, update, delete, count, get_by_external_id,
}

-- The procedures of the user service, with their arguments.
pub data Procedure : Type 0 where
  lists : ℤ → ℤ → Bool → Procedure
  creates : Option ProtoUser → Procedure
  gets : Bytes → Procedure
  updates : Bytes → Option ProtoUser → Procedure
  deletes : Bytes → Procedure
  counts : Bool → Procedure
  gets_by_external_id : ℤ → Procedure

-- All but the two that a user may apply to himself.
abbrev pub IsAdministrative : Procedure → Type 0
IsAdministrative (gets _) = ⊥
IsAdministrative (gets_by_external_id _) = ⊥
IsAdministrative _ = Unit {0}

module _ {S : Type 0} (pf : Platform) (store : UserStorage S) (limit : ℤ) (ctx : Context) where
  -- The server's handler for a procedure.
  unfoldable pub handle : Procedure → Handler S Response
  handle (lists offset n disabled) = list pf store limit ctx offset n disabled
  handle (creates message) = create pf store limit ctx message
  handle (gets id) = get pf store limit ctx id
  handle (updates id message) = update pf store limit ctx id message
  handle (deletes id) = delete pf store limit ctx id
  handle (counts inactivated) = count pf store limit ctx inactivated
  handle (gets_by_external_id id) = get_by_external_id pf store limit ctx id

  require_admin_denied :
      (s : S)
      → (get_user_from_context ctx).1 ≡ false
      → require_admin pf store limit ctx s ≡ (fail permission_denied, s)
  unfolding require_admin is
  require_admin_denied s h = ground arith

  -- Without the admin flag every procedure that lists, creates, updates, deletes or counts users
  -- is refused with permission_denied, and the state stays as it is.
  pub handle_denied :
      (p : Procedure) (s : S)
      → IsAdministrative p
      → (get_user_from_context ctx).1 ≡ false
      → handle p s ≡ (fail permission_denied, s)
  unfolding handle list create update delete count
  handle_denied (lists offset n disabled) s a h = ground (arith, require_admin_denied s h)
  handle_denied (creates message) s a h = ground (arith, require_admin_denied s h)
  handle_denied (updates id message) s a h = ground (arith, require_admin_denied s h)
  handle_denied (deletes id) s a h = ground (arith, require_admin_denied s h)
  handle_denied (counts inactivated) s a h = ground (arith, require_admin_denied s h)
  handle_denied (gets id) s a h = elim a [ ]
  handle_denied (gets_by_external_id id) s a h = elim a [ ]

  self_allowed :
      (id : ℤ) (s t : S)
      → (get_user_from_context ctx).1 ≡ false
      → require_self_or_admin pf store limit ctx id s ≡ (reply tt, t)
      → (id ≡ (get_user_from_context ctx).0) × (is_positive id ≡ true)
  unfolding require_self_or_admin
  self_allowed id s t h k = ground (arith, int_beq_iff (get_user_from_context ctx).0 id)

  shown : User → Handler S Response
  shown u = do
    require_self_or_admin pf store limit ctx u.alternate_app_id
    respond (user (domain_user_to_proto pf (some u)))

  -- What a caller without the admin flag gets from a look-up by id is himself: any reply is the
  -- message of a user with the caller's id, which is positive.
  pub get_self :
      (id : Bytes) (s t : S) (r : Response)
      → (get_user_from_context ctx).1 ≡ false
      → get pf store limit ctx id s ≡ (reply r, t)
      → (u : User) × (r ≡ user (domain_user_to_proto pf (some u)))
        × (u.alternate_app_id ≡ (get_user_from_context ctx).0)
        × (is_positive u.alternate_app_id ≡ true)
  unfolding get shown
  get_self id s t r h k =
      let (uuid, s₁, _, k₁) =
        >>=-reply (parse_id pf store limit ctx id)
          (λ i. serve map_error_to_connect (UserService.get pf store i) >>= shown) s k in
      let (u, s₂, _, k₂) =
        >>=-reply (serve map_error_to_connect (UserService.get pf store uuid)) shown s₁ k₁ in
      let (_, s₃, l, k₃) =
        >>=-reply (require_self_or_admin pf store limit ctx u.alternate_app_id)
          (λ _. respond (user (domain_user_to_proto pf (some u)))) s₂ k₂ in
      let (e, p) = self_allowed u.alternate_app_id s₂ s₃ h l in (u, ground arith, e, p)
