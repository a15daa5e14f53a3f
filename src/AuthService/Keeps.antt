-- ===== src/AuthService/Keeps.antt =====
-- pkg/auth/auth_service.go over a storage that keeps a predicate.
use go_cloud_k8s_auth.Prelude.{Bytes, [], ◌≡◌, false, not, inl, inr, arith}
use go_cloud_k8s_auth.Prelude.Int.{ℤ}
use go_cloud_k8s_auth.Prelude.Error.{
  Result, ok, sentinel, user_disabled, user_not_found, wrap, raise, Result-cases,
}
use go_cloud_k8s_auth.Prelude.Keeps.{Keeps, Keeps-return, Keeps-if, Keeps-bind, Keeps-map_err}
use go_cloud_k8s_auth.Domain.{Time, User, OAuthUserInfo, admin_role}
use go_cloud_k8s_auth.Platform.{Platform}
use go_cloud_k8s_auth.Storage.{UserStorage}
use go_cloud_k8s_auth.Storage.Keeps.{UsersKeep}
use go_cloud_k8s_auth.AuthService.{
  App, Settings, on_store, member, ensure_bootstrap_admin, admit, authenticate_oauth_user,
  get_group_ids_as_ints, issue_jwt_for_user, validate_token, get_current_user, start_oauth,
  check_state, handle_callback,
}

-- The predicate on the store of the application.
abbrev pub Stored : {S : Type 0} → (S → Type 0) → App S → Type 0
Stored P s = P s.store

module _ {S : Type 0} (P : S → Type 0) where
  pub Keeps-on_store :
      {B : Type 0} (m : S → Result B × S) → Keeps P m → Keeps (Stored P) (on_store m)
  Keeps-on_store m h = record { after = λ s p. h.after s.store p }

  module _ (pf : Platform) (cfg : Settings) (store : UserStorage S)
      (reads : UsersKeep P store) where
    pub issue-Keeps : (u : User) → Keeps P (issue_jwt_for_user pf cfg store u)
    unfolding issue_jwt_for_user get_group_ids_as_ints
    issue-Keeps u = record {
      after = λ s p.
          (Keeps-bind P _ (λ ids. _) (reads.get_user_group_ids u.id)
              (λ ids. Keeps-return P _)).after
            s p;
    }

    pub validate-Keeps : (token : Bytes) → Keeps P (validate_token pf cfg store token)
    unfolding validate_token
    validate-Keeps token = record {
      after = λ s p. elim (Result-cases (pf.parse_token token)) [
        | inl (claims, e) ↦ ground (arith, (reads.get_by_alternate_app_id claims.user_id).after s p)
        | inr (x, e) ↦ ground (arith, p)
      ];
    }

    pub current-Keeps : (id : ℤ) → Keeps P (get_current_user pf cfg store id)
    unfolding get_current_user
    current-Keeps id =
        Keeps-map_err P (λ _. wrap (sentinel user_not_found)) _ (reads.get_by_alternate_app_id id)

    pub start-Keeps :
        (random : Result Bytes) (now : Time) (provider url : Bytes)
        → Keeps (Stored P) (start_oauth pf cfg store random now provider url)
    unfolding start_oauth
    start-Keeps random now provider url = record { after = λ s p. ground (arith, p) }

    check-Keeps :
        (now : Time) (state provider : Bytes)
        → Keeps (Stored P) (check_state pf cfg store now state provider)
    unfolding check_state
    check-Keeps now state provider = record { after = λ s p. p }

    -- What follows asks that the grant of the role to the user of a login keeps the predicate.
    module _ (grants : (info : OAuthUserInfo) → Keeps P (admit pf cfg store info)) where
      pub authenticate-Keeps :
          (provider code url : Bytes)
          → Keeps P (authenticate_oauth_user pf cfg store provider code url)
      unfolding authenticate_oauth_user
      authenticate-Keeps provider code url = Keeps-bind P _ _ (Keeps-return P _) grants

      pub callback-Keeps :
          (now : Time) (provider code state : Bytes)
          → Keeps (Stored P) (handle_callback pf cfg store now provider code state)
      unfolding handle_callback
      callback-Keeps now provider code state =
          Keeps-bind (Stored P) _ _ (check-Keeps now state provider) λ _.
            Keeps-bind (Stored P) _ _ (Keeps-on_store _ (authenticate-Keeps provider code [])) λ u.
              Keeps-bind (Stored P) _ _ (Keeps-on_store _ (issue-Keeps u))
                λ _. Keeps-return (Stored P) _

    -- A grant of the role that keeps the predicate, or no e-mail that gets it.
    pub admit-Keeps :
        (info : OAuthUserInfo)
        → ((u : User) → Keeps P (ensure_bootstrap_admin pf cfg store u))
        → Keeps P (admit pf cfg store info)
    unfolding admit
    admit-Keeps info h =
        Keeps-bind P _ _ (Keeps-map_err P wrap _ (reads.upsert_by_provider info)) λ u.
          Keeps-if P (not u.is_active) (raise (sentinel user_disabled)) _ (Keeps-return P _) (h u)

    pub granting-Keeps :
        ((u : User) → Keeps P (store.add_role u.id admin_role))
        → (u : User) → Keeps P (ensure_bootstrap_admin pf cfg store u)
    unfolding ensure_bootstrap_admin
    granting-Keeps h u =
        Keeps-if P (not (member (pf.to_lower u.email) cfg.bootstrap_admin_emails)) _ _
          (Keeps-return P (ok u))
          (Keeps-bind P _ _ (Keeps-map_err P wrap _ (h u)) λ _. Keeps-return P _)

    pub unlisted-Keeps :
        ((email : Bytes) → member email cfg.bootstrap_admin_emails ≡ false)
        → (u : User) → Keeps P (ensure_bootstrap_admin pf cfg store u)
    unfolding ensure_bootstrap_admin
    unlisted-Keeps h u = record { after = λ s p. rw (h (pf.to_lower u.email)) p }
