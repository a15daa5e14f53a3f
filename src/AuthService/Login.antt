-- ===== src/AuthService/Login.antt =====
-- OAuth logins through pkg/auth/auth_service.go: the user that a login returns, and the state that
-- a callback consumes.
use go_cloud_k8s_auth.Prelude.{
  Bytes, true, not, Option, none, some, List, [], ◌∷◌, ◌≡◌, ◌⊎◌, ◌∙◌, ap, subst, arith, All,
  bytes_beq_self, inl, inr, if◌then◌else◌, Bool-cases, bytes_eq,
}
use go_cloud_k8s_auth.Prelude.Error.{
  ok, err, Action, sentinel, wrap, invalid_state, user_disabled, pure, raise, lift, map_err, ◌>>=◌,
}
use go_cloud_k8s_auth.Prelude.Invert.{map_err-ok, >>=-ok}
use go_cloud_k8s_auth.Storage.UserRows.{with_role}
use go_cloud_k8s_auth.Domain.{Time, Roles, User, OAuthUserInfo, admin_role}
use go_cloud_k8s_auth.Platform.{Platform}
use go_cloud_k8s_auth.Rbac.{has_role}
use go_cloud_k8s_auth.Storage.{UserStorage, UserStorageLaws}
use go_cloud_k8s_auth.StateStore.{validate, validate_and_consume}
use go_cloud_k8s_auth.StateStore.History.{Op, Fresh, run}
use go_cloud_k8s_auth.StateStore.Replay.{consume_once}
use go_cloud_k8s_auth.AuthService.{
  App, Settings, member, ensure_bootstrap_admin, fetch_profile, admit, authenticate_oauth_user,
  handle_callback,
}

has_role-append : (roles : Roles) (role : Bytes) → has_role (with_role role roles) role ≡ true
unfolding has_role
has_role-append none role = ground (arith, bytes_beq_self role)
has_role-append (some []) role = ground (arith, bytes_beq_self role)
has_role-append (some (r ∷ roles)) role = ground (arith, has_role-append (some roles) role)

module _ {S : Type 0} (pf : Platform) (set : Settings) (store : UserStorage S) where
  -- The user is listed as a first administrator.
  abbrev pub IsListed : User → Type 0
  IsListed u = member (pf.to_lower u.email) set.bootstrap_admin_emails ≡ true

  -- What a login gives: an active user, who is an administrator if listed and if he has a list of
  -- roles.
  abbrev pub IsAdmitted : User → Type 0
  IsAdmitted u =
      (u.is_active ≡ true) × (IsListed u → (has_role u.roles admin_role ≡ true) ⊎ (u.roles ≡ none))

  granted-IsAdmitted :
      (laws : UserStorageLaws store) (info : OAuthUserInfo) (s t t' : S) (u : User)
      (o : Option User)
      → store.upsert_by_provider info s ≡ (ok u, t)
      → store.add_role u.id admin_role t ≡ (ok o, t')
      → u.is_active ≡ true
      → IsAdmitted (elim o [ none ↦ u | some w ↦ w ])
  granted-IsAdmitted laws info s t t' u none h k a =
      (a, λ _. laws.no_grant_after_login info admin_role s t t' u h k)
  granted-IsAdmitted laws info s t t' u (some w) h k a =
      let law = laws.grant_after_login info admin_role s t t' u w h k in
      (law.1 ∙ a, λ _. inl (rw law.2 (has_role-append u.roles admin_role)))

  bootstrap-IsAdmitted :
      (laws : UserStorageLaws store) (info : OAuthUserInfo) (s t t' : S) (u w : User)
      → store.upsert_by_provider info s ≡ (ok u, t)
      → u.is_active ≡ true
      → ensure_bootstrap_admin pf set store u t ≡ (ok w, t')
      → IsAdmitted w
  unfolding ensure_bootstrap_admin
  bootstrap-IsAdmitted laws info s t t' u w h a e =
      elim (Bool-cases (member (pf.to_lower u.email) set.bootstrap_admin_emails)) [
        | inl listed ↦
            let step : (map_err wrap (store.add_role u.id admin_role) >>= λ o.
            pure (elim o [ none ↦ u | some v ↦ v ]))
                  t
                ≡ (ok w, t') =
              rw (listed, ensure_bootstrap_admin) at e in
            let (o, t₁, k, l) =
              >>=-ok (map_err wrap (store.add_role u.id admin_role))
                (λ o. pure (elim o [ none ↦ u | some v ↦ v ])) t step in
            let g =
              granted-IsAdmitted laws info s t t₁ u o h
                (map_err-ok wrap (store.add_role u.id admin_role) t k) a in
            let same : elim o [ none ↦ u | some v ↦ v ] ≡ w = ground arith in
            subst IsAdmitted same g
        | inr unlisted ↦
            let same : u ≡ w = ground arith in subst (λ v. IsAdmitted v) same (a, λ l. ground arith)
      ]

  -- A login that succeeds gives an active user, who, if the e-mail is listed as one of a first
  -- administrator, has the role "admin" or no list of roles at all, provided that the storage keeps
  -- its contract on grants.
  pub authenticated-IsAdmitted :
      (laws : UserStorageLaws store) (provider code url : Bytes) (s t : S) (w : User)
      → authenticate_oauth_user pf set store provider code url s ≡ (ok w, t)
      → IsAdmitted w
  unfolding authenticate_oauth_user
  authenticated-IsAdmitted laws provider code url s t w h =
      let (info, s₁, _, k) =
        >>=-ok (lift (fetch_profile pf set store provider code url)) (admit pf set store) s h in
      let (u, s₂, l, m) = >>=-ok (map_err wrap (store.upsert_by_provider info)) (rest info) s₁ k in
      let active : u.is_active ≡ true = ground arith in
      let n : ensure_bootstrap_admin pf set store u s₂ ≡ (ok w, t) = rw (active, rest) at m in
      bootstrap-IsAdmitted laws info s₁ s₂ t u w
        (map_err-ok wrap (store.upsert_by_provider info) s₁ l) active n
    where
      rest : OAuthUserInfo → User → Action S User
      rest info u =
          if not u.is_active
          then raise (sentinel user_disabled)
          else ensure_bootstrap_admin pf set store u

  callback-states :
      (now : Time) (provider code state : Bytes) (s : App S)
      → (handle_callback pf set store now provider code state s).1.states
        ≡ (validate_and_consume now state provider s.states).1
  unfolding handle_callback validate
  callback-states now provider code state s = ground arith

  callback-refused :
      (now : Time) (provider code state : Bytes) (s : App S)
      → (validate_and_consume now state provider s.states).0 ≡ none
      → (handle_callback pf set store now provider code state s).0 ≡ err (sentinel invalid_state)
  unfolding handle_callback validate
  callback-refused now provider code state s h = ground arith

  -- A callback uses its state up: whatever happens to the state store afterwards and whatever the
  -- storage then holds, a second callback with that state fails with ErrInvalidState, also for
  -- another provider or code, as long as the same random bytes are not drawn again.
  pub replay_refused :
      (now later : Time) (provider provider' code code' state : Bytes) (s : App S)
      (cs : List (Time × Op)) (db : S)
      → All (λ c. Fresh state c.1) cs
      → (handle_callback pf set store later provider' code' state (record {
        states = run cs (handle_callback pf set store now provider code state s).1.states;
        store = db;
      })).0
        ≡ err (sentinel invalid_state)
  replay_refused now later provider provider' code code' state s cs db f =
      callback-refused later provider' code' state _ (
        ap (λ ss. (validate_and_consume later state provider' (run cs ss)).0)
          (callback-states now provider code state s)
        ∙ consume_once state provider provider' now later cs s.states f)
