-- ===== src/AuthService/Unset.antt =====
-- Users without a list of roles, in storage_postgres.go and in the logins of auth_service.go.
use go_cloud_k8s_auth.Prelude.{
  Option, true, false, not, none, some, ◌≡◌, ◌∙◌, inl, inr, arith, Bool-cases, if◌then◌else◌, find,
}
use go_cloud_k8s_auth.Prelude.Error.{
  ok, Action, sentinel, user_disabled, wrap, pure, raise, map_err, ◌>>=◌,
}
use go_cloud_k8s_auth.Prelude.Invert.{map_err-ok, >>=-ok}
use go_cloud_k8s_auth.Domain.{Uuid, Time, User, OAuthUserInfo, admin_role}
use go_cloud_k8s_auth.Platform.{Platform}
use go_cloud_k8s_auth.Rbac.{has_role}
use go_cloud_k8s_auth.Storage.Db.{Db}
use go_cloud_k8s_auth.Storage.UserRows.{same_identity}
use go_cloud_k8s_auth.Storage.Users.{pgx_users, upsert_by_provider, add_role, update}
use go_cloud_k8s_auth.Storage.Users.Identity.{known_identity}
use go_cloud_k8s_auth.Storage.Users.Roles.{by_id, upsert-by_id, add_role-unset, update-roles}
use go_cloud_k8s_auth.AuthService.{Settings, member, ensure_bootstrap_admin, admit}

module _ (pf : Platform) (set : Settings) (now : Time) where
  bootstrap-unset :
      (u w : User) (db db' : Db)
      → by_id u.id db.users ≡ some u
      → u.roles ≡ none
      → ensure_bootstrap_admin pf set (pgx_users pf now) u db ≡ (ok w, db')
      → w.roles ≡ none
  unfolding ensure_bootstrap_admin
  bootstrap-unset u w db db' k n h =
      elim (Bool-cases (member (pf.to_lower u.email) set.bootstrap_admin_emails)) [
        | inl listed ↦
            let step : (map_err wrap (add_role pf now u.id admin_role) >>= answer) db
                ≡ (ok w, db') =
              rw (listed, ensure_bootstrap_admin) at h in
            let (o, db₁, l, m) =
              >>=-ok (map_err wrap (add_role pf now u.id admin_role)) answer db step in
            let unchanged : o ≡ none =
              add_role-unset pf now admin_role u o db db₁ k n
                (map_err-ok wrap (add_role pf now u.id admin_role) db l) in
            ground arith
        | inr unlisted ↦ ground arith
      ]
    where
      answer : Option User → Action Db User
      answer o = pure (elim o [ none ↦ u | some v ↦ v ])

  admitted-unset :
      (info : OAuthUserInfo) (v w : User) (db db' : Db)
      → find (same_identity info) db.users ≡ some v
      → v.roles ≡ none
      → admit pf set (pgx_users pf now) info db ≡ (ok w, db')
      → w.roles ≡ none
  unfolding admit
  admitted-unset info v w db db' known n h =
      let (u, s₂, l, m) = >>=-ok (map_err wrap (upsert_by_provider pf now info)) rest db h in
      let made = map_err-ok wrap (upsert_by_provider pf now info) db l in
      let (_, _, same, _) = known_identity pf now info db v u s₂ known made in
      let active : u.is_active ≡ true = ground arith in
      bootstrap-unset u w s₂ db' (upsert-by_id pf now info u db s₂ made) (same ∙ n)
        (rw (active, rest) at m)
    where
      rest : User → Action Db User
      rest u =
          if not u.is_active
          then raise (sentinel user_disabled)
          else ensure_bootstrap_admin pf set (pgx_users pf now) u

  -- An update of a user without a list of roles leaves NULL in the table, and a login of that user's
  -- identity that follows does not give the role "admin", even where the e-mail is listed as one of a first
  -- administrator: the user that the login returns has no list of roles either.
  pub unset_roles_stay :
      (before : Time) (id : Uuid) (request v w : User) (info : OAuthUserInfo) (db db₁ db₂ : Db)
      → request.roles ≡ none
      → update pf before id request db ≡ (ok v, db₁)
      → find (same_identity info) db₁.users ≡ some v
      → admit pf set (pgx_users pf now) info db₁ ≡ (ok w, db₂)
      → (w.roles ≡ none) × (has_role w.roles admin_role ≡ false)
  unfolding has_role
  unset_roles_stay before id request v w info db db₁ db₂ n h known login =
      let unset =
        admitted-unset info v w db₁ db₂ known (update-roles pf before id request v db db₁ h ∙ n)
          login in
      (unset, ground arith)
