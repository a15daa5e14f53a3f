-- ===== src/Server/Keeps/Requests.antt =====
-- The server of cmd/goCloudAuthServer/goCloudAuthServer.go over storages that keep a predicate: what
-- each request keeps.
use go_cloud_k8s_auth.Prelude.{
  Bytes, false, ◌≡◌, ◌⊎◌, inl, inr, bytes_eq, Bool-cases, Option-cases, All,
}
use go_cloud_k8s_auth.Prelude.Strings.{str, has_prefix, strip_prefix}
use go_cloud_k8s_auth.Prelude.Keeps.{Keeps}
use go_cloud_k8s_auth.Domain.{OAuthUserInfo}
use go_cloud_k8s_auth.Storage.Keeps.{UsersKeep, WritesKeep, SessionsKeep, PatsKeep}
use go_cloud_k8s_auth.AuthService.{admit}
use go_cloud_k8s_auth.AuthService.Keeps.{Stored}
use go_cloud_k8s_auth.Browser.Handlers.Keeps as Pages
use go_cloud_k8s_auth.Connect.{Context, background, reply, intercept, get_user_from_context}
use go_cloud_k8s_auth.Connect.Auth.Keeps as AuthKeeps
use go_cloud_k8s_auth.Connect.Pats.Keeps as PatsKeeps
use go_cloud_k8s_auth.Connect.Users.Keeps.{handle-Keeps}
use go_cloud_k8s_auth.Connect.Users.Access.{
  Procedure, handle, lists, creates, gets, updates, deletes, counts, gets_by_external_id,
}
use go_cloud_k8s_auth.Server.{Moment, Wiring, list_default_limit, in_app}
use go_cloud_k8s_auth.Server.Services.{switch, new_auth_service_handler, new_user_service_handler}
use go_cloud_k8s_auth.Server.Routes.{
  Http, Network, Target, at_login, at_oauth_start, at_oauth_callback, at_token, at_logout,
  transcoder, metrics, readiness, health, app_info, jwt_login, jwt_status, cases_of, call,
  transcoded, dispatch, serve, routes,
}
use go_cloud_k8s_auth.Server.Keeps.{
  IsUnprivileged, unprivileged_context, in_app-Keeps, CaseKeeps, switch-Keeps, unary-Keeps,
}

module _ {S : Type 0} (P : S → Type 0) (w : Wiring S) (m : Moment)
    (reads : UsersKeep P (w.users m.now)) (pats : PatsKeep P (w.pats m.now))
    (sessions : SessionsKeep P m.random (w.sessions m.now))
    (grants : (info : OAuthUserInfo) → Keeps P (admit w.platform w.settings (w.users m.now) info))
    (privilege : IsUnprivileged w.platform m.authorization ⊎ WritesKeep P (w.users m.now)) where
  auth_service-Keeps : All (CaseKeeps P) (new_auth_service_handler w m)
  auth_service-Keeps =
      let pf = w.platform in
      let users = w.users m.now in
      (
        unary-Keeps P w m _ _ _ _ (λ ctx msg i.
            AuthKeeps.start-Keeps P pf w.settings users reads m.random m.now msg.0 msg.1),
        (
          unary-Keeps P w m _ _ _ _ (λ ctx msg i.
              AuthKeeps.callback-Keeps P pf w.settings users reads grants m.now msg.0 msg.1 msg.2),
          (
            unary-Keeps P w m _ _ _ _
                (λ ctx token i. AuthKeeps.validate-Keeps P pf w.settings users reads token),
            (
              unary-Keeps P w m _ _ _ _
                  (λ ctx msg i. AuthKeeps.current-Keeps P pf w.settings users reads ctx),
              (
                unary-Keeps P w m _ _ _ _ (λ ctx token i.
                    in_app-Keeps P _ (
                      PatsKeeps.introspect-Keeps P pf (w.pats m.now) users pats reads m.now token)),
                (
                  unary-Keeps P w m _ _ _ _ (λ ctx msg i. in_app-Keeps P _ (
                      PatsKeeps.create-Keeps P pf (w.pats m.now) users pats reads m.draw m.now ctx
                        msg.0 msg.1 msg.2)),
                  (
                    unary-Keeps P w m _ _ _ _ (λ ctx msg i.
                        in_app-Keeps P _
                          (PatsKeeps.list-Keeps P pf (w.pats m.now) users pats reads ctx)),
                    (
                      unary-Keeps P w m _ _ _ _ (λ ctx id i.
                          in_app-Keeps P _
                            (PatsKeeps.revoke-Keeps P pf (w.pats m.now) users pats reads ctx id)),
                      tt,
                    ),
                  ),
                ),
              ),
            ),
          ),
        ),
      )

  users_case :
      (ctx : Context) (procedure : Bytes)
      → intercept w.platform procedure m.authorization background ≡ reply ctx
      → (p : Procedure)
      → Keeps (Stored P) (in_app (handle w.platform (w.users m.now) list_default_limit ctx p))
  users_case ctx procedure i p =
      in_app-Keeps P _
        (handle-Keeps P w.platform (w.users m.now) reads list_default_limit ctx p privileges)
    where
      privileges : ((get_user_from_context ctx).1 ≡ false) ⊎ WritesKeep P (w.users m.now)
      privileges = elim privilege [
        | inl u ↦ inl (unprivileged_context w.platform procedure m.authorization ctx u i)
        | inr k ↦ inr k
      ]

  user_service-Keeps : All (CaseKeeps P) (new_user_service_handler w m)
  unfolding handle
  user_service-Keeps = (
    unary-Keeps P w m _ _ _ _ (λ ctx msg i. users_case ctx _ i (lists msg.0 msg.1 msg.2)),
    (
      unary-Keeps P w m _ _ _ _ (λ ctx msg i. users_case ctx _ i (creates msg)),
      (
        unary-Keeps P w m _ _ _ _ (λ ctx msg i. users_case ctx _ i (gets msg)),
        (
          unary-Keeps P w m _ _ _ _ (λ ctx msg i. users_case ctx _ i (updates msg.0 msg.1)),
          (
            unary-Keeps P w m _ _ _ _ (λ ctx msg i. users_case ctx _ i (deletes msg)),
            (
              unary-Keeps P w m _ _ _ _ (λ ctx msg i. users_case ctx _ i (counts msg)),
              (
                unary-Keeps P w m _ _ _ _
                    (λ ctx msg i. users_case ctx _ i (gets_by_external_id msg)),
                tt,
              ),
            ),
          ),
        ),
      ),
    ),
  )

  cases-Keeps : (net : Network) (procedure : Bytes) → All (CaseKeeps P) (cases_of w net m procedure)
  cases-Keeps net procedure =
      elim (Bool-cases (has_prefix procedure (str "/auth.v1.AuthService/"))) [
        | inl e ↦ rw e auth_service-Keeps
        | inr e ↦ elim (Bool-cases (has_prefix procedure (str "/auth.v1.UserService/"))) [
          | inl f ↦ rw (e, f) user_service-Keeps
          | inr f ↦ rw (e, f) tt
        ]
      ]

  call-Keeps :
      (net : Network) (procedure message : Bytes)
      → Keeps (Stored P) (call w net m procedure message)
  unfolding call
  call-Keeps net procedure message = record {
    after = λ s p. elim (Option-cases (switch procedure (cases_of w net m procedure))) [
      | inl e ↦ rw (e, call) p
      | inr (c, e) ↦
          rw (e, call)
            ((switch-Keeps P procedure (cases_of w net m procedure) c (cases-Keeps net procedure) e
                message).after
              s p)
    ];
  }

  transcoded-Keeps :
      (net : Network) (req : Http) (path : Bytes) → Keeps (Stored P) (transcoded w net m req path)
  unfolding transcoded
  transcoded-Keeps net req path = record {
    after = λ s p. elim (Option-cases (net.transcode req path)) [
      | inl e ↦ rw (e, transcoded) p
      | inr (found, e) ↦ rw (e, transcoded) ((call-Keeps net found.0 found.1).after s p)
    ];
  }

  dispatch-Keeps :
      (net : Network) (req : Http) (provider : Bytes) (target : Target)
      → Keeps (Stored P) (dispatch w net m req provider target)
  unfolding dispatch
  dispatch-Keeps net req provider at_login = record {
    after =
        (Pages.login-PageKeeps P w.platform w.settings (w.users m.now) (w.sessions m.now) w.browser
          m.random reads sessions (record req.form { provider = provider })).after;
  }
  dispatch-Keeps net req provider at_oauth_start = record {
    after =
        (Pages.start-PageKeeps P w.platform w.settings (w.users m.now) (w.sessions m.now) w.browser
          m.random reads sessions m.now (record req.form { provider = provider })).after;
  }
  dispatch-Keeps net req provider at_oauth_callback = record {
    after =
        (Pages.callback-PageKeeps P w.platform w.settings (w.users m.now) (w.sessions m.now)
          w.browser m.random reads sessions grants m.now
          (record req.form { provider = provider })).after;
  }
  dispatch-Keeps net req provider at_token = record {
    after =
        (Pages.token-PageKeeps P w.platform w.settings (w.users m.now) (w.sessions m.now) w.browser
          m.random reads sessions (record req.form { provider = provider })).after;
  }
  dispatch-Keeps net req provider at_logout = record {
    after =
        (Pages.logout-PageKeeps P w.platform w.settings (w.users m.now) (w.sessions m.now) w.browser
          m.random reads sessions (record req.form { provider = provider })).after;
  }
  dispatch-Keeps net req provider (transcoder prefix) = record {
    after = λ s p. elim (Option-cases (strip_prefix prefix req.path)) [
      | inl e ↦ rw (e, dispatch) p
      | inr (path, e) ↦ rw (e, dispatch) ((transcoded-Keeps net req path).after s p)
    ];
  }
  dispatch-Keeps net req provider metrics = record { after = λ s p. p }
  dispatch-Keeps net req provider readiness = record { after = λ s p. p }
  dispatch-Keeps net req provider health = record { after = λ s p. p }
  dispatch-Keeps net req provider app_info = record { after = λ s p. p }
  dispatch-Keeps net req provider jwt_login = record { after = λ s p. p }
  dispatch-Keeps net req provider jwt_status = record { after = λ s p. p }

  -- One request keeps the predicate.
  pub serve-Keeps :
      (net : Network) (auth_url status_url : Bytes) (req : Http)
      → Keeps (Stored P) (serve w net auth_url status_url m req)
  unfolding serve
  serve-Keeps net auth_url status_url req = record {
    after = λ s p. elim (Option-cases (net.find_route (routes auth_url status_url) req)) [
      | inl e ↦ rw (e, serve) p
      | inr (found, e) ↦ rw (e, serve) ((dispatch-Keeps net req found.1 found.0).after s p)
    ];
  }
