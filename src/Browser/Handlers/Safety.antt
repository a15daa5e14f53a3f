-- ===== src/Browser/Handlers/Safety.antt =====
-- The handlers of pkg/auth/browser_handlers.go: their redirects, the session cookie and the JWT.
use go_cloud_k8s_auth.Prelude.{
  Bytes, true, Option, some, [], ◌≡◌, inl, inr, arith, Bool-cases, Option-cases,
}
use go_cloud_k8s_auth.Prelude.Error.{Result, ok}
use go_cloud_k8s_auth.Prelude.Invert.{Outcome-cases}
use go_cloud_k8s_auth.Domain.{Time, User, Session}
use go_cloud_k8s_auth.Platform.{Platform}
use go_cloud_k8s_auth.Storage.{UserStorage, SessionStorage}
use go_cloud_k8s_auth.StateStore.{validate_and_consume}
use go_cloud_k8s_auth.AuthService.{
  App, Settings, on_store, authenticate_oauth_user, issue_jwt_for_user,
}
use go_cloud_k8s_auth.Browser.{
  BrowserConfig, Request, Response, Cookie, TokenResponse, redirect, minted, session_cookie,
  callback_url, lifetime, cookie_value, or_root, is_allowed_redirect,
}
use go_cloud_k8s_auth.Browser.Handlers.{
  current_session, handle_login, handle_oauth_callback, handle_token, mint, log_in, establish,
}

-- A response redirects, if at all, to an allowed URI.
abbrev pub RedirectsAllowed : Platform → BrowserConfig → Response → Type 0
RedirectsAllowed pf cfg (redirect uri) = is_allowed_redirect pf cfg uri ≡ true
RedirectsAllowed pf cfg _ = Unit {0}

module _ {S : Type 0} (pf : Platform) (set : Settings) (store : UserStorage S)
    (sessions : SessionStorage S) (cfg : BrowserConfig) where
  login_allowed :
      (req : Request) (s : App S)
      → RedirectsAllowed pf cfg (handle_login pf set store sessions cfg req s).0
  unfolding handle_login
  login_allowed req s = ground arith

  establish_allowed :
      (random : Result Bytes) (req : Request) (uri : Bytes) (u : User) (s : App S)
      → is_allowed_redirect pf cfg uri ≡ true
      → RedirectsAllowed pf cfg (establish pf set store sessions cfg random req uri u s).0
  unfolding establish
  establish_allowed random req uri u s h = ground arith

  log_in_allowed :
      (random : Result Bytes) (req : Request) (uri : Bytes) (s : App S)
      → is_allowed_redirect pf cfg uri ≡ true
      → RedirectsAllowed pf cfg (log_in pf set store sessions cfg random req uri s).0
  unfolding log_in
  log_in_allowed random req uri s h =
      elim (Outcome-cases (
        on_store
          (authenticate_oauth_user pf set store req.provider req.code
            (callback_url pf cfg req.provider))
          s)) [
            | inl (u, t, e) ↦ ground (arith, establish_allowed random req uri u t h)
            | inr (x, t, e) ↦ ground arith
          ]

  -- The login page and the OAuth callback redirect only to URIs that pass the redirect check, whatever
  -- the request says.
  pub redirects_allowed :
      (random : Result Bytes) (now : Time) (req : Request) (s : App S)
      → RedirectsAllowed pf cfg (handle_login pf set store sessions cfg req s).0
        × RedirectsAllowed pf cfg
            (handle_oauth_callback pf set store sessions cfg random now req s).0
  unfolding handle_oauth_callback
  redirects_allowed random now req s = (login_allowed req s, callback)
    where
      after : App S
      after = record s { states = (validate_and_consume now req.state req.provider s.states).1 }

      callback :
          RedirectsAllowed pf cfg
            (handle_oauth_callback pf set store sessions cfg random now req s).0
      callback = elim (Option-cases (validate_and_consume now req.state req.provider s.states).0) [
        | inl e ↦ ground arith
        | inr (uri, e) ↦ elim (Bool-cases (is_allowed_redirect pf cfg (or_root uri))) [
          | inl a ↦ ground (arith, log_in_allowed random req (or_root uri) after a)
          | inr a ↦ ground arith
        ]
      ]

  -- The callback sets a cookie only if the provider reported no error, the state was waiting for this
  -- provider, and the login authenticated a user for whom the storage then made a session: the
  -- cookie carries the token of that session, and the lifetime of the configuration.
  pub cookie_means_login :
      (random : Result Bytes) (now : Time) (req : Request) (s t : App S) (r : Response) (c : Cookie)
      → handle_oauth_callback pf set store sessions cfg random now req s ≡ (r, some c, t)
      → (uri : Bytes) × (u : User) × (s₁ : App S) × (token : Bytes) × (req.error ≡ [])
        × ((validate_and_consume now req.state req.provider s.states).0 ≡ some uri)
        × (on_store
              (authenticate_oauth_user pf set store req.provider req.code
                (callback_url pf cfg req.provider))
              (record s { states = (validate_and_consume now req.state req.provider s.states).1 })
            ≡ (ok u, s₁))
        × (on_store (sessions.create random u.id req.user_agent req.real_ip (lifetime pf cfg)) s₁
            ≡ (ok token, t))
        × (c ≡ session_cookie pf cfg token)
        × (r ≡ redirect (or_root uri))
  unfolding handle_oauth_callback log_in establish
  cookie_means_login random now req s t r c h =
      elim (Option-cases (validate_and_consume now req.state req.provider s.states).0) [
        | inl e ↦ ground arith
        | inr (uri, e) ↦
            let after : App S = record s {
              states = (validate_and_consume now req.state req.provider s.states).1;
            } in
            elim (Outcome-cases (
              on_store
                (authenticate_oauth_user pf set store req.provider req.code
                  (callback_url pf cfg req.provider))
                after)) [
                  | inr (x, s₁, f) ↦ ground arith
                  | inl (u, s₁, f) ↦
                      elim (Outcome-cases (
                        on_store
                          (sessions.create random u.id req.user_agent req.real_ip (lifetime pf cfg))
                          s₁)) [
                            | inr (x, s₂, g) ↦ ground arith
                            | inl (token, s₂, g) ↦
                                let same : s₂ ≡ t = ground arith in
                                (
                                  uri,
                                  u,
                                  s₁,
                                  token,
                                  ground arith,
                                  e,
                                  f,
                                  ground arith,
                                  ground arith,
                                  ground arith,
                                )
                          ]
                ]
      ]

  -- A JWT is minted only for a request whose session cookie names a valid session of a user who is
  -- found and active, and it is the JWT of that user.
  pub minted_means_session :
      (req : Request) (s t : App S) (m : TokenResponse) (c : Option Cookie)
      → handle_token pf set store sessions cfg req s ≡ (minted m, c, t)
      → (v : Bytes) × (session : Session) × (u : User) × (s₁ : App S) × (s₂ : App S) × (cookie_value
            pf cfg req
          ≡ some v)
        × (on_store (sessions.get_valid v) s ≡ (ok session, s₁))
        × (on_store (store.get_by_id session.user_id) s₁ ≡ (ok u, s₂))
        × (u.is_active ≡ true)
        × (on_store (issue_jwt_for_user pf set store u) s₂ ≡ (ok m.token, t))
        × (m.user_id ≡ u.alternate_app_id)
  unfolding handle_token current_session mint
  minted_means_session req s t m c h = elim (Option-cases (cookie_value pf cfg req)) [
    | inl e ↦ ground arith
    | inr (v, e) ↦ elim (Outcome-cases (on_store (sessions.get_valid v) s)) [
      | inr (x, s₁, f) ↦ ground arith
      | inl (session, s₁, f) ↦
          elim (Outcome-cases (on_store (store.get_by_id session.user_id) s₁)) [
            | inr (x, s₂, g) ↦ ground arith
            | inl (u, s₂, g) ↦
                elim (Outcome-cases (on_store (issue_jwt_for_user pf set store u) s₂)) [
                  | inr (x, s₃, k) ↦ ground arith
                  | inl (token, s₃, k) ↦
                      let active : u.is_active ≡ true = ground arith in
                      let same : (token ≡ m.token) × (s₃ ≡ t) = ground arith in
                      (v, session, u, s₁, s₂, e, f, g, active, ground arith, ground arith)
                ]
          ]
    ]
  ]
