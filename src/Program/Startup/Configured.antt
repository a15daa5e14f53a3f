-- ===== src/Program/Startup/Configured.antt =====
-- The configuration of the running server (cmd/goCloudAuthServer/goCloudAuthServer.go) by its
-- environment.
use go_cloud_k8s_auth.Prelude.{
  Bytes, true, false, List, [], ◌∷◌, ◌≡◌, refl, inl, inr, arith, All, Bool-cases, if◌then◌else◌,
}
use go_cloud_k8s_auth.Prelude.Int.{is_positive}
use go_cloud_k8s_auth.Prelude.Strings.{str, is_empty}
use go_cloud_k8s_auth.Prelude.Error.{Result-cases, ok, ◌>>=◌}
use go_cloud_k8s_auth.Prelude.Invert.{>>=-ok}
use go_cloud_k8s_auth.Platform.{Platform, OauthConfig}
use go_cloud_k8s_auth.AuthService.{parse_admin_emails}
use go_cloud_k8s_auth.OauthProviders.{
  OAuthProviderConfig, build_google_config, build_git_hub_config, build_microsoft_config,
}
use go_cloud_k8s_auth.Browser.{BrowserConfig, new_browser_handlers}
use go_cloud_k8s_auth.Program.{
  Env, trimmed_parts, get_env_list, get_env_string, provider_config, default_redirect,
  oauth_configs, default_session_duration,
}
use go_cloud_k8s_auth.Program.Startup.{
  Libraries, Stage, Served, perform, connect, set_up, mount, main, browser_cfg,
}

abbrev pub NonEmpty : Bytes → Type 0
NonEmpty s = is_empty s ≡ false

-- A provider with an id, a secret and a redirect URL.
abbrev pub IsComplete : Bytes × OauthConfig → Type 0
IsComplete (_, c) = NonEmpty c.client_id × NonEmpty c.client_secret × NonEmpty c.redirect_url

-- The handlers' own checks, and the environment's lists.
abbrev pub IsConfigured : Platform → Env → Served → Type 0
IsConfigured pf env s =
    (is_positive s.browser.session_ttl ≡ true)
    × NonEmpty s.browser.cookie_name
    × (All NonEmpty s.browser.allowed_redirect_uris)
    × (All IsComplete s.settings.oauth_configs)
    × (s.settings.bootstrap_admin_emails
        ≡ parse_admin_emails pf (env (str "BOOTSTRAP_ADMIN_EMAILS")))

trimmed_parts-NonEmpty :
    (pf : Platform) (parts : List Bytes) → All NonEmpty (trimmed_parts pf parts)
unfolding trimmed_parts
trimmed_parts-NonEmpty pf [] = tt
trimmed_parts-NonEmpty pf (p ∷ parts) = elim (Bool-cases (is_empty (pf.trim_space p))) [
  | inl e ↦ rw e (trimmed_parts-NonEmpty pf parts)
  | inr e ↦ rw e (e, trimmed_parts-NonEmpty pf parts)
]

-- What the builders leave of a configuration.
abbrev Copies : (OAuthProviderConfig → OauthConfig) → Type 0
Copies build =
    (c : OAuthProviderConfig)
    → ((build c).client_id ≡ c.client_id)
      × ((build c).client_secret ≡ c.client_secret)
      × ((build c).redirect_url ≡ c.redirect_url)

redirect_set : (url : Bytes) → NonEmpty (if is_empty url then default_redirect else url)
redirect_set [] = refl
redirect_set (c ∷ url) = refl

provider_config-IsComplete :
    (env : Env) (name id_key secret_key redirect_key : Bytes)
    (build : OAuthProviderConfig → OauthConfig) (configs : List (Bytes × OauthConfig))
    → Copies build
    → All IsComplete configs
    → All IsComplete (provider_config env name id_key secret_key redirect_key build configs)
unfolding provider_config
provider_config-IsComplete env name id_key secret_key redirect_key build configs copies h =
    let c : OAuthProviderConfig = record {
      client_id = env id_key;
      client_secret = env secret_key;
      redirect_url = if is_empty (env redirect_key) then default_redirect else env redirect_key;
    } in
    let (a, b, d) = copies c in
    elim (Bool-cases (is_empty (env id_key))) [
      | inl e ↦ rw e h
      | inr e ↦ elim (Bool-cases (is_empty (env secret_key))) [
        | inl f ↦ rw (e, f) h
        | inr f ↦ rw (e, f) ((rw a e, rw b f, rw d (redirect_set (env redirect_key))), h)
      ]
    ]

oauth_configs-IsComplete : (pf : Platform) (env : Env) → All IsComplete (oauth_configs pf env)
unfolding oauth_configs build_google_config build_git_hub_config build_microsoft_config
oauth_configs-IsComplete pf env =
    provider_config-IsComplete env _ _ _ _ _ _ (λ c. (refl, refl, refl))
      (provider_config-IsComplete env _ _ _ _ _ _ (λ c. (refl, refl, refl))
        (provider_config-IsComplete env _ _ _ _ _ _ (λ c. (refl, refl, refl)) tt))

-- The checks of the handlers, on a configuration that they accept.
accepted :
    (cfg cfg' : BrowserConfig)
    → new_browser_handlers cfg ≡ ok cfg'
    → (is_positive cfg'.session_ttl ≡ true)
      × NonEmpty cfg'.cookie_name
      × (cfg'.allowed_redirect_uris ≡ cfg.allowed_redirect_uris)
unfolding new_browser_handlers
accepted cfg cfg' h = ground arith

module _ (pf : Platform) (lib : Libraries) (env : Env) where
  mount-IsConfigured :
      (url : Bytes) (before after : List Stage) (s : Served)
      → mount pf lib env url before ≡ (ok s, after)
      → IsConfigured pf env s
  unfolding mount perform browser_cfg get_env_list
  mount-IsConfigured url before after s h =
      elim (Result-cases (
        lib.parse_duration
          (get_env_string env (str "SESSION_DURATION") default_session_duration))) [
            | inr (x, e) ↦ ground arith
            | inl (ttl, e) ↦ elim (Result-cases (new_browser_handlers (browser_cfg pf env ttl))) [
              | inr (x, f) ↦ ground arith
              | inl (cfg, f) ↦
                  let (a, b, c) = accepted (browser_cfg pf env ttl) cfg f in
                  let same : (s.browser ≡ cfg)
                      × (s.settings.oauth_configs ≡ oauth_configs pf env)
                      × (s.settings.bootstrap_admin_emails
                          ≡ parse_admin_emails pf (env (str "BOOTSTRAP_ADMIN_EMAILS"))) =
                    ground arith in
                  (
                    rw same.0 a,
                    rw same.0 b,
                    rw (same.0, c) (trimmed_parts-NonEmpty pf _),
                    rw same.1 (oauth_configs-IsComplete pf env),
                    same.2,
                  )
            ]
          ]

  -- A server that serves has a positive session lifetime, a cookie name, no empty prefix among the
  -- allowed redirect URIs, only providers with an id, a secret and a redirect URL, and as bootstrap
  -- administrators the e-mails of its environment.
  pub main-IsConfigured :
      (after : List Stage) (s : Served) → main pf lib env [] ≡ (ok s, after) → IsConfigured pf env s
  unfolding main
  main-IsConfigured after s h =
      let (url, t, _, k) =
        >>=-ok (connect pf lib env) (λ u. set_up pf lib env >>= λ _. mount pf lib env u) [] h in
      let (_, t', _, l) = >>=-ok (set_up pf lib env) (λ _. mount pf lib env url) t k in
      mount-IsConfigured url t' after s l
