-- ===== src/UserService/Keeps.antt =====
-- pkg/auth/user_service.go over a storage that keeps a predicate.
use go_cloud_k8s_auth.Prelude.{Bool, Option}
use go_cloud_k8s_auth.Prelude.Int.{ℤ}
use go_cloud_k8s_auth.Prelude.Error.{wrap}
use go_cloud_k8s_auth.Prelude.Keeps.{Keeps, Keeps-return, Keeps-bind, Keeps-map_err}
use go_cloud_k8s_auth.Domain.{Uuid, User}
use go_cloud_k8s_auth.Platform.{Platform}
use go_cloud_k8s_auth.Storage.{UserStorage}
use go_cloud_k8s_auth.Storage.Keeps.{UsersKeep, WritesKeep}
use go_cloud_k8s_auth.UserService.{
  lookup_error, with_defaults, list, get, ensure_exists, create, update, delete, count,
  get_by_external_id,
}

module _ {S : Type 0} (P : S → Type 0) (pf : Platform) (store : UserStorage S)
    (reads : UsersKeep P store) where
  pub list-Keeps :
      (offset limit : ℤ) (filter : Option Bool) → Keeps P (list pf store offset limit filter)
  unfolding list
  list-Keeps offset limit filter = record { after = (reads.list offset limit filter).after }

  pub get-Keeps : (id : Uuid) → Keeps P (get pf store id)
  unfolding get
  get-Keeps id = Keeps-map_err P lookup_error (store.get_by_id id) (reads.get_by_id id)

  pub get_by_external_id-Keeps : (id : ℤ) → Keeps P (get_by_external_id pf store id)
  unfolding get_by_external_id
  get_by_external_id-Keeps id = Keeps-map_err P lookup_error _ (reads.get_by_alternate_app_id id)

  pub count-Keeps : (filter : Option Bool) → Keeps P (count pf store filter)
  unfolding count
  count-Keeps filter = Keeps-map_err P wrap _ (reads.count filter)

  exists-Keeps : (id : Uuid) → Keeps P (ensure_exists pf store id)
  unfolding ensure_exists
  exists-Keeps id = record { after = (reads.exist id).after }

  module _ (writes : WritesKeep P store) where
    pub create-Keeps : (u : User) → Keeps P (create pf store u)
    unfolding create
    create-Keeps u =
        Keeps-bind P _ _ (Keeps-return P _)
          λ _. Keeps-map_err P wrap _ (writes.create (with_defaults u))

    pub update-Keeps : (id : Uuid) (u : User) → Keeps P (update pf store id u)
    unfolding update
    update-Keeps id u =
        Keeps-bind P _ _ (Keeps-return P _)
          λ _. Keeps-bind P _ _ (exists-Keeps id) λ _. Keeps-map_err P wrap _ (writes.update id u)

    pub delete-Keeps : (id : Uuid) → Keeps P (delete pf store id)
    unfolding delete
    delete-Keeps id =
        Keeps-bind P _ _ (exists-Keeps id) λ _. Keeps-map_err P wrap _ (writes.delete id)
