-- ===== src/Connect/Users/Demotion.antt =====
-- pkg/auth/user_connect_server.go: `ensureNotSelfDemotion` and the update that it guards.
use go_cloud_k8s_auth.Prelude.{
  Bytes, true, false, ◌&&◌, Option, none, some, ◌≡◌, ◌≢◌, ◌∙◌, sym, subst, arith, ◌⊎◌, inl, inr,
  if◌then◌else◌, ◌==◌, bytes_eq, Bool-cases,
}
use go_cloud_k8s_auth.Prelude.Int.{ℤ, int_eq, int_beq_iff}
use go_cloud_k8s_auth.Prelude.Error.{ok}
use go_cloud_k8s_auth.Domain.{Roles, Uuid, User, admin_role}
use go_cloud_k8s_auth.Platform.{Platform}
use go_cloud_k8s_auth.Rbac.{has_role}
use go_cloud_k8s_auth.Storage.{UserStorage}
use go_cloud_k8s_auth.Mappers.{ProtoUser, domain_user_to_proto, proto_user_to_domain}
use go_cloud_k8s_auth.UserService
use go_cloud_k8s_auth.Connect.{
  failed_precondition, reply, Handler, Context, get_user_from_context, serve, ◌>>=◌, ◌>>◌, respond,
  refuse,
}
use go_cloud_k8s_auth.Connect.Invert.{>>=-reply, serve-reply}
use go_cloud_k8s_auth.Connect.Users.{
  Response, user, map_error_to_connect, require_admin, parse_id, to_domain,
  ensure_not_self_demotion, update,
}

module _ {S : Type 0} (pf : Platform) (store : UserStorage S) (limit : ℤ) (ctx : Context) where
  -- The roles keep "admin", or the target is not both an administrator and the caller.
  abbrev pub IsHarmless : User → Roles → Type 0
  IsHarmless target roles =
      (has_role roles admin_role ≡ true)
      ⊎ (has_role target.roles admin_role ≡ false)
      ⊎ (target.alternate_app_id ≢ (get_user_from_context ctx).0)

  check : Roles → User → Handler S (Unit {0})
  check roles target =
      if target.alternate_app_id == (get_user_from_context ctx).0
        && has_role target.roles admin_role
      then refuse failed_precondition
      else respond tt

  check-IsHarmless :
      (roles : Roles) (target : User) (s t : S)
      → check roles target s ≡ (reply tt, t)
      → (s ≡ t) × IsHarmless target roles
  unfolding check
  check-IsHarmless roles target s t h = (
    ground arith,
    ground (arith, int_beq_iff target.alternate_app_id (get_user_from_context ctx).0),
  )

  -- The roles keep "admin", or a look-up in `s` has found a target that loses nothing.
  abbrev pub IsChecked : Uuid → Roles → S → S → Type 0
  IsChecked id roles s t =
      (has_role roles admin_role ≡ true)
      ⊎ ((target : User) × (UserService.get pf store id s ≡ (ok target, t))
          × IsHarmless target roles)

  guard-cases :
      (id : Uuid) (roles : Roles) (s t : S)
      → ensure_not_self_demotion pf store limit ctx id roles s ≡ (reply tt, t)
      → IsChecked id roles s t
  unfolding ensure_not_self_demotion check
  guard-cases id roles s t h = elim (Bool-cases (has_role roles admin_role)) [
    | inl admin ↦ inl admin
    | inr plain ↦
        let k : (serve map_error_to_connect (UserService.get pf store id) >>= check roles) s
            ≡ (reply tt, t) =
          rw (plain, check) at h in
        let (target, s₁, l, m) =
          >>=-reply (serve map_error_to_connect (UserService.get pf store id)) (check roles) s k in
        let (same, harmless) = check-IsHarmless roles target s₁ t m in
        inr (
          target,
          subst (λ x. UserService.get pf store id s ≡ (ok target, x)) same
              (serve-reply map_error_to_connect (UserService.get pf store id) s l),
          harmless,
        )
  ]

  parse_id-reply :
      (text : Bytes) (s t : S) (id : Uuid)
      → parse_id pf store limit ctx text s ≡ (reply id, t)
      → (pf.parse_uuid text ≡ some id) × (s ≡ t)
  unfolding parse_id
  parse_id-reply text s t id h = (ground arith, ground arith)

  to_domain-reply :
      (message : Option ProtoUser) (s t : S) (d : User)
      → to_domain pf store limit ctx message s ≡ (reply d, t)
      → (proto_user_to_domain pf message ≡ ok (some d)) × (s ≡ t)
  unfolding to_domain
  to_domain-reply none s t d h = (ground arith, ground arith)
  to_domain-reply (some p) s t d h = (ground arith, ground arith)

  require_admin-reply :
      (s t : S)
      → require_admin pf store limit ctx s ≡ (reply tt, t)
      → ((get_user_from_context ctx).1 ≡ true) × (s ≡ t)
  unfolding require_admin
  require_admin-reply s t h = (ground arith, ground arith)

  -- What an update of a user writes.
  store_update : Uuid → User → Handler S Response
  store_update id d = do
    updated ← serve map_error_to_connect (UserService.update pf store id d)
    respond (user (domain_user_to_proto pf (some updated)))

  -- An update that is carried out was asked by an administrator, and gives the target roles with
  -- "admin" among them, or has found, in the state before, that the target is no administrator or
  -- is not the caller.
  pub update-IsHarmless :
      (text : Bytes) (message : Option ProtoUser) (r : Response) (s t : S)
      → update pf store limit ctx text message s ≡ (reply r, t)
      → (id : Uuid) × (d : User) × (t' : S) × (pf.parse_uuid text ≡ some id)
        × (proto_user_to_domain pf message ≡ ok (some d))
        × ((get_user_from_context ctx).1 ≡ true)
        × IsChecked id d.roles s t'
  unfolding update store_update
  update-IsHarmless text message r s t h =
      let (_, s₁, a, h₁) =
        >>=-reply (require_admin pf store limit ctx)
          (λ _. parse_id pf store limit ctx text >>= after_id) s h in
      let (id, s₂, b, h₂) = >>=-reply (parse_id pf store limit ctx text) after_id s₁ h₁ in
      let (d, s₃, c, h₃) =
        >>=-reply (to_domain pf store limit ctx message) (after_domain id) s₂ h₂ in
      let (_, s₄, g, _) =
        >>=-reply (ensure_not_self_demotion pf store limit ctx id d.roles) (λ _. store_update id d)
          s₃ h₃ in
      let (admin, e₁) = require_admin-reply s s₁ a in
      let (parsed, e₂) = parse_id-reply text s₁ s₂ id b in
      let (domain, e₃) = to_domain-reply message s₂ s₃ d c in
      (
        id,
        d,
        s₄,
        parsed,
        domain,
        admin,
        subst (λ x. IsChecked id d.roles x s₄) (sym (e₁ ∙ e₂ ∙ e₃))
            (guard-cases id d.roles s₃ s₄ g),
      )
    where
      after_domain : Uuid → User → Handler S Response
      after_domain id d =
          ensure_not_self_demotion pf store limit ctx id d.roles >> store_update id d

      after_id : Uuid → Handler S Response
      after_id id = to_domain pf store limit ctx message >>= after_domain id
