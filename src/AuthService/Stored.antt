-- ===== src/AuthService/Stored.antt =====
-- OAuth logins of pkg/auth/auth_service.go over the storage of pkg/auth/storage_postgres.go.
use go_cloud_k8s_auth.Prelude.{
  Bytes, Option, true, not, none, some, ◌≡◌, sym, ap, ◌∙◌, inl, inr, arith, subst, Bool-cases,
  if◌then◌else◌,
}
use go_cloud_k8s_auth.Prelude.Error.{
  ok, Action, sentinel, user_disabled, wrap, pure, raise, lift, map_err, ◌>>=◌,
}
use go_cloud_k8s_auth.Prelude.Invert.{map_err-ok, >>=-ok}
use go_cloud_k8s_auth.Domain.{Time, User, admin_role}
use go_cloud_k8s_auth.Platform.{Platform}
use go_cloud_k8s_auth.Storage.Db.{Db}
use go_cloud_k8s_auth.Storage.Users.{pgx_users, upsert_by_provider, add_role}
use go_cloud_k8s_auth.Storage.Users.Roles.{by_id, by_id-id, upsert-by_id, by_id-id, add_role-by_id}
use go_cloud_k8s_auth.AuthService.{
  Settings, member, ensure_bootstrap_admin, fetch_profile, admit, authenticate_oauth_user,
}

module _ (pf : Platform) (set : Settings) (now : Time) where
  bootstrap-by_id :
      (u w : User) (db db' : Db)
      → by_id u.id db.users ≡ some u
      → ensure_bootstrap_admin pf set (pgx_users pf now) u db ≡ (ok w, db')
      → by_id w.id db'.users ≡ some w
  unfolding ensure_bootstrap_admin
  bootstrap-by_id u w db db' k h =
      elim (Bool-cases (member (pf.to_lower u.email) set.bootstrap_admin_emails)) [
        | inl listed ↦
            let step : (map_err wrap (add_role pf now u.id admin_role) >>= answer) db
                ≡ (ok w, db') =
              rw (listed, ensure_bootstrap_admin) at h in
            let (o, db₁, l, m) =
              >>=-ok (map_err wrap (add_role pf now u.id admin_role)) answer db step in
            let same : (elim o [ none ↦ u | some v ↦ v ] ≡ w) × (db₁ ≡ db') =
              (ground arith, ground arith) in
            let row : by_id u.id db'.users ≡ some w =
              subst (λ d. by_id u.id d.users ≡ some w) same.1
                (add_role-by_id pf now admin_role u o db db₁ k
                    (map_err-ok wrap (add_role pf now u.id admin_role) db l)
                  ∙ ap some same.0) in
            subst (λ id. by_id id db'.users ≡ some w) (sym (by_id-id u.id w db'.users row)) row
        | inr unlisted ↦ ground arith
      ]
    where
      answer : Option User → Action Db User
      answer o = pure (elim o [ none ↦ u | some v ↦ v ])

  -- The user that a login returns is the row of the table under that id.
  pub authenticated-by_id :
      (provider code url : Bytes) (w : User) (db db' : Db)
      → authenticate_oauth_user pf set (pgx_users pf now) provider code url db ≡ (ok w, db')
      → by_id w.id db'.users ≡ some w
  unfolding authenticate_oauth_user admit
  authenticated-by_id provider code url w db db' h =
      let (info, s₁, _, k) =
        >>=-ok (lift (fetch_profile pf set (pgx_users pf now) provider code url))
          (admit pf set (pgx_users pf now)) db h in
      let (u, s₂, l, m) = >>=-ok (map_err wrap (upsert_by_provider pf now info)) rest s₁ k in
      let active : u.is_active ≡ true = ground arith in
      bootstrap-by_id u w s₂ db'
        (upsert-by_id pf now info u s₁ s₂ (map_err-ok wrap (upsert_by_provider pf now info) s₁ l))
        (rw (active, rest) at m)
    where
      rest : User → Action Db User
      rest u =
          if not u.is_active
          then raise (sentinel user_disabled)
          else ensure_bootstrap_admin pf set (pgx_users pf now) u
