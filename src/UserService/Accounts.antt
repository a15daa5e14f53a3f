-- ===== src/UserService/Accounts.antt =====
-- pkg/auth/user_service.go: accounts that an administrator creates, over PostgreSQL.
use go_cloud_k8s_auth.Prelude.{◌==◌, bytes_eq, true, false, ◌&&◌, some, [], ◌≡◌, arith, any}
use go_cloud_k8s_auth.Prelude.Strings.{str}
use go_cloud_k8s_auth.Prelude.Int.{pos, int_eq}
use go_cloud_k8s_auth.Prelude.Error.{ok, err, wrap, pg_unique, unique_provider, lift, map_err}
use go_cloud_k8s_auth.Prelude.Invert.{>>=-ok, map_err-ok}
use go_cloud_k8s_auth.Domain.{Time, User}
use go_cloud_k8s_auth.Platform.{Platform}
use go_cloud_k8s_auth.Storage.Db.{Db}
use go_cloud_k8s_auth.Storage.Users.{pgx_users}
use go_cloud_k8s_auth.Storage.Users
use go_cloud_k8s_auth.Storage.Users.Roles.{by_id, create-by_id}
use go_cloud_k8s_auth.Storage.Users.Findings.{create_taken_identity}
use go_cloud_k8s_auth.UserService.{validate_user_input, with_defaults, create}

module _ (pf : Platform) (now : Time) where
  -- A user whom the service has created passed the input checks, is active whatever the request said, has
  -- the e-mail and the name of the request, and is what the table holds under the new id.
  pub created_stored :
      (request u : User) (db db' : Db)
      → create pf (pgx_users pf now) request db ≡ (ok u, db')
      → (validate_user_input pf request.name request.email ≡ ok tt)
        × (by_id u.id db'.users ≡ some u)
        × (u.is_active ≡ true)
        × (u.email ≡ request.email)
        × (u.name ≡ request.name)
  unfolding create
  created_stored request u db db' h =
      let (_, db₁, valid, k) =
        >>=-ok (lift (validate_user_input pf request.name request.email))
          (λ _. map_err wrap ((pgx_users pf now).create (with_defaults request))) db h in
      let (found, active, email, name) =
        create-by_id pf now (with_defaults request) u db₁ db'
          (map_err-ok wrap ((pgx_users pf now).create (with_defaults request)) db₁ k) in
      (ground arith, found, active, email, name)

  -- With the database reachable, once any account of the default provider without a provider's id
  -- exists, every further creation of such an account that passes the input checks fails, with a
  -- fresh ids and an unused e-mail, on the constraint that provider and provider's id are unique
  -- together.
  pub one_local_account :
      (request : User) (db : Db)
      → validate_user_input pf request.name request.email ≡ ok tt
      → request.provider ≡ []
      → request.provider_id ≡ []
      → any (λ v. v.provider == str "local" && v.provider_id == []) db.users ≡ true
      → any (λ v. v.id == pf.gen_uuid db.seq) db.users ≡ false
      → any (λ v. v.alternate_app_id == pos db.user_seq) db.users ≡ false
      → any (λ v. v.email == request.email) db.users ≡ false
      → db.faults ≡ []
      → (create pf (pgx_users pf now) request db).0 ≡ err (wrap (pg_unique unique_provider))
  unfolding create Users.create
  one_local_account request db valid p i taken fresh serial unused calm =
      let local : (with_defaults request).provider ≡ str "local" = rw p in
      let there : any
            (λ v.
              v.provider == (with_defaults request).provider
              && v.provider_id == (with_defaults request).provider_id)
            db.users
          ≡ true =
        rw (local, i) taken in
      let failed =
        create_taken_identity pf now (with_defaults request) db there fresh serial unused calm in
      rw (valid, failed)
