-- ===== src/Connect/Users/Keeps.antt =====
-- pkg/auth/user_connect_server.go over a storage that keeps a predicate.
use go_cloud_k8s_auth.Prelude.{
  Bool, Bytes, false, Option, ◌≡◌, inl, inr, ◌⊎◌, arith, ◌==◌, bytes_eq, ◌&&◌, if◌then◌else◌,
}
use go_cloud_k8s_auth.Prelude.Int.{ℤ, int_eq}
use go_cloud_k8s_auth.Prelude.Keeps.{Keeps, Keeps-return, Keeps-if}
use go_cloud_k8s_auth.Domain.{Roles, Uuid, User, admin_role}
use go_cloud_k8s_auth.Platform.{Platform}
use go_cloud_k8s_auth.Storage.{UserStorage}
use go_cloud_k8s_auth.Storage.Keeps.{UsersKeep, WritesKeep}
use go_cloud_k8s_auth.Mappers.{ProtoUser}
use go_cloud_k8s_auth.UserService.Keeps
use go_cloud_k8s_auth.Rbac.{has_role}
use go_cloud_k8s_auth.Connect.{
  Context, Handler, respond, refuse, failed_precondition, reply, get_user_from_context,
}
use go_cloud_k8s_auth.Connect.Keeps.{Keeps-serve, Keeps-then}
use go_cloud_k8s_auth.Connect.Users.{
  map_error_to_connect, parse_id, to_domain, require_admin, require_self_or_admin, list, create,
  get, update, delete, count, get_by_external_id, ensure_not_self_demotion,
}
use go_cloud_k8s_auth.Connect.Users.Access.{
  Procedure, IsAdministrative, lists, creates, gets, updates, deletes, counts, gets_by_external_id,
  handle, handle_denied,
}

module _ {S : Type 0} (P : S → Type 0) (pf : Platform) (store : UserStorage S)
    (reads : UsersKeep P store) (limit : ℤ) (ctx : Context) where
  self_or_admin : (id : ℤ) → Keeps P (require_self_or_admin pf store limit ctx id)
  unfolding require_self_or_admin
  self_or_admin id = record { after = λ s p. ground (arith, p) }

  parses : (id : Bytes) → Keeps P (parse_id pf store limit ctx id)
  unfolding parse_id
  parses id = record { after = λ s p. ground (arith, p) }

  converts : (message : Option ProtoUser) → Keeps P (to_domain pf store limit ctx message)
  unfolding to_domain
  converts message = record { after = λ s p. ground (arith, p) }

  admin_checked : Keeps P (require_admin pf store limit ctx)
  unfolding require_admin
  admin_checked = record { after = λ s p. ground (arith, p) }

  get-Keeps : (id : Bytes) → Keeps P (get pf store limit ctx id)
  unfolding get
  get-Keeps id = Keeps-then P _ _ (parses id) λ uuid.
      Keeps-then P _ _
        (Keeps-serve P map_error_to_connect _ (Keeps.get-Keeps P pf store reads uuid))
        λ u. Keeps-then P _ _ (self_or_admin u.alternate_app_id) λ _. Keeps-return P _

  get_by_external_id-Keeps : (id : ℤ) → Keeps P (get_by_external_id pf store limit ctx id)
  unfolding get_by_external_id
  get_by_external_id-Keeps id = Keeps-then P _ _ (self_or_admin id) λ _.
      Keeps-then P _ _
        (Keeps-serve P map_error_to_connect _ (Keeps.get_by_external_id-Keeps P pf store reads id))
        λ _. Keeps-return P _

  list-Keeps :
      (offset n : ℤ) (disabled : Bool) → Keeps P (list pf store limit ctx offset n disabled)
  unfolding list
  list-Keeps offset n disabled = Keeps-then P _ _ admin_checked λ _.
      Keeps-then P _ _
        (Keeps-serve P map_error_to_connect _ (Keeps.list-Keeps P pf store reads _ _ _))
        λ _. Keeps-return P _

  count-Keeps : (inactivated : Bool) → Keeps P (count pf store limit ctx inactivated)
  unfolding count
  count-Keeps inactivated = Keeps-then P _ _ admin_checked λ _.
      Keeps-then P _ _ (Keeps-serve P map_error_to_connect _ (Keeps.count-Keeps P pf store reads _))
        λ _. Keeps-return P _

  -- The check on the target that is found.
  refused_or_not : (u : User) → Handler S (Unit {0})
  refused_or_not u =
      if u.alternate_app_id == (get_user_from_context ctx).0 && has_role u.roles admin_role
      then refuse failed_precondition
      else respond tt

  checks : (u : User) → Keeps P (refused_or_not u)
  unfolding refused_or_not
  checks u = record { after = λ s p. ground (arith, p) }

  undemoted :
      (id : Uuid) (roles : Roles) → Keeps P (ensure_not_self_demotion pf store limit ctx id roles)
  unfolding ensure_not_self_demotion refused_or_not
  undemoted id roles =
      Keeps-if P (has_role roles admin_role) (respond tt) _ (Keeps-return P (reply tt)) (
        Keeps-then P _ refused_or_not
          (Keeps-serve P map_error_to_connect _ (Keeps.get-Keeps P pf store reads id)) checks)

  module _ (writes : WritesKeep P store) where
    create-Keeps : (message : Option ProtoUser) → Keeps P (create pf store limit ctx message)
    unfolding create
    create-Keeps message = Keeps-then P _ _ admin_checked λ _.
        Keeps-then P _ _ (converts message) λ u.
          Keeps-then P _ _
            (Keeps-serve P map_error_to_connect _ (Keeps.create-Keeps P pf store reads writes u))
            λ _. Keeps-return P _

    update-Keeps :
        (id : Bytes) (message : Option ProtoUser) → Keeps P (update pf store limit ctx id message)
    unfolding update
    update-Keeps id message = Keeps-then P _ _ admin_checked λ _.
        Keeps-then P _ _ (parses id) λ uuid. Keeps-then P _ _ (converts message) λ u.
          Keeps-then P _ _ (undemoted uuid u.roles) λ _.
            Keeps-then P _ _
              (Keeps-serve P map_error_to_connect _
                (Keeps.update-Keeps P pf store reads writes uuid u))
              λ _. Keeps-return P _

    delete-Keeps : (id : Bytes) → Keeps P (delete pf store limit ctx id)
    unfolding delete
    delete-Keeps id = Keeps-then P _ _ admin_checked λ _. Keeps-then P _ _ (parses id) λ uuid.
        Keeps-then P _ _
          (Keeps-serve P map_error_to_connect _ (Keeps.delete-Keeps P pf store reads writes uuid))
          λ _. Keeps-return P _

  denied :
      (p : Procedure)
      → IsAdministrative p
      → (get_user_from_context ctx).1 ≡ false
      → Keeps P (handle pf store limit ctx p)
  denied p a h = record { after = λ s k. rw (handle_denied pf store limit ctx p s a h) k }

  -- A caller without the admin flag, or writes that keep the predicate.
  pub handle-Keeps :
      (p : Procedure)
      → ((get_user_from_context ctx).1 ≡ false) ⊎ WritesKeep P store
      → Keeps P (handle pf store limit ctx p)
  unfolding handle
  handle-Keeps (lists offset n disabled) c = list-Keeps offset n disabled
  handle-Keeps (creates message) (inl h) = denied (creates message) tt h
  handle-Keeps (creates message) (inr w) = create-Keeps w message
  handle-Keeps (gets id) c = get-Keeps id
  handle-Keeps (updates id message) (inl h) = denied (updates id message) tt h
  handle-Keeps (updates id message) (inr w) = update-Keeps w id message
  handle-Keeps (deletes id) (inl h) = denied (deletes id) tt h
  handle-Keeps (deletes id) (inr w) = delete-Keeps w id
  handle-Keeps (counts inactivated) c = count-Keeps inactivated
  handle-Keeps (gets_by_external_id id) c = get_by_external_id-Keeps id
