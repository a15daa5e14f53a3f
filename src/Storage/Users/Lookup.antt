-- ===== src/Storage/Users/Lookup.antt =====
-- pkg/auth/storage_postgres.go: looking a user up.
use go_cloud_k8s_auth.Prelude.{◌==◌, bytes_eq, some, [], find, ◌≡◌, arith}
use go_cloud_k8s_auth.Prelude.Int.{ℤ, int_eq}
use go_cloud_k8s_auth.Prelude.Error.{ok}
use go_cloud_k8s_auth.Domain.{Uuid, Time, User}
use go_cloud_k8s_auth.Platform.{Platform}
use go_cloud_k8s_auth.Storage.Db.{Db, query}
use go_cloud_k8s_auth.Storage.Users.{get_one, get_by_id, get_by_alternate_app_id}

module _ (pf : Platform) (now : Time) where
  pub get_by_id-found :
      (id : Uuid) (u : User) (db : Db)
      → find (λ v. v.id == id) db.users ≡ some u
      → db.faults ≡ []
      → get_by_id pf now id db ≡ (ok u, db)
  unfolding get_by_id get_one query
  get_by_id-found id u db h calm = ground arith

  -- The look-up reads: only the list of faults to come is shorter afterwards.
  pub get_by_alternate_app_id-pats :
      (app_id : ℤ) (db : Db) → (get_by_alternate_app_id pf now app_id db).1.pats ≡ db.pats
  unfolding get_by_alternate_app_id get_one query
  get_by_alternate_app_id-pats app_id db = ground arith
