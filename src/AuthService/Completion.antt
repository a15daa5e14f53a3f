-- ===== src/AuthService/Completion.antt =====
-- A login of pkg/auth/auth_service.go from its start to its callback.
use go_cloud_k8s_auth.Prelude.{
  ◌+◌, ◌≤◌, Bytes, bytes_beq_self, some, List, [], ◌≡◌, refl, ap, arith, All, bytes_eq, ◌∙◌,
}
use go_cloud_k8s_auth.Prelude.Strings.{hex}
use go_cloud_k8s_auth.Prelude.Error.{ok}
use go_cloud_k8s_auth.Domain.{Time, User}
use go_cloud_k8s_auth.Platform.{Platform, OauthConfig}
use go_cloud_k8s_auth.Storage.{UserStorage}
use go_cloud_k8s_auth.StateStore.{validate_and_consume, validate, generate, generate_with_redirect}
use go_cloud_k8s_auth.StateStore.History.{Op, run, Untouched}
use go_cloud_k8s_auth.StateStore.Replay.{redeem}
use go_cloud_k8s_auth.AuthService.{
  App, Settings, config_of, with_redirect, start_oauth, handle_callback, check_state,
  authenticate_oauth_user, issue_jwt_for_user,
}

module _ {S : Type 0} (pf : Platform) (cfg : Settings) (store : UserStorage S) where
  started :
      (b : Bytes) (now : Time) (provider url : Bytes) (c : OauthConfig) (s : App S)
      → config_of provider cfg.oauth_configs ≡ some c
      → start_oauth pf cfg store (ok b) now provider url s ≡ (
        ok (pf.auth_code_url (with_redirect url c) (hex b), hex b),
        record s { states = (generate_with_redirect (ok b) now provider [] s.states).1 },
      )
  unfolding start_oauth generate generate_with_redirect
  started b now provider url c s e = rw (e, start_oauth) refl

  called_back :
      (later : Time) (provider code state : Bytes) (s : App S) (u : User) (token : Bytes) (t : S)
      → (validate_and_consume later state provider s.states).0 ≡ some []
      → authenticate_oauth_user pf cfg store provider code [] s.store ≡ (ok u, t)
      → (issue_jwt_for_user pf cfg store u t).0 ≡ ok token
      → (handle_callback pf cfg store later provider code state s).0 ≡ ok (token, u)
  unfolding handle_callback check_state validate
  called_back later provider code state s u token t h a i = ground arith

  -- A login that has been started for a configured provider completes: whatever else happens to the
  -- states and to the storage before, a callback within the lifetime of the state, with the state that
  -- the start has given and for the same provider, answers with the user and his JWT, if the state has not
  -- been presented meanwhile, the provider and the storage authenticate a user, and the JWT is issued.
  pub login_completes :
      (b : Bytes) (now later : Time) (provider url code : Bytes) (c : OauthConfig)
      (cs : List (Time × Op)) (s s' : App S) (u : User) (token : Bytes) (t : S)
      → config_of provider cfg.oauth_configs ≡ some c
      → All (λ o. Untouched (hex b) o.1) cs
      → All (λ o. o.0 ≤ later) cs
      → later ≤ now + s.states.ttl
      → s'.states ≡ run cs (start_oauth pf cfg store (ok b) now provider url s).1.states
      → authenticate_oauth_user pf cfg store provider code [] s'.store ≡ (ok u, t)
      → (issue_jwt_for_user pf cfg store u t).0 ≡ ok token
      → ((start_oauth pf cfg store (ok b) now provider url s).0
          ≡ ok (pf.auth_code_url (with_redirect url c) (hex b), hex b))
        × ((handle_callback pf cfg store later provider code (hex b) s').0 ≡ ok (token, u))
  login_completes b now later provider url code c cs s s' u token t e untouched before lifetime
        states a i =
      let start = started b now provider url c s e in
      let redeemed = redeem b provider [] provider now later cs s.states untouched before in
      let found : (validate_and_consume later (hex b) provider s'.states).0 ≡ some [] =
        rw (states, start) (redeemed ∙ ground (arith, bytes_beq_self provider)) in
      (ap (λ r. r.0) start, called_back later provider code (hex b) s' u token t found a i)
