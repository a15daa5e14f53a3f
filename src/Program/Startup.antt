-- ===== src/Program/Startup.antt =====
-- `main` of cmd/goCloudAuthServer/goCloudAuthServer.go as a sequence of steps, each of which may end
-- the program; the constructors of pkg/auth that it calls; and what the libraries answer.
pub mod Ready
pub mod Configured
use go_cloud_k8s_auth.Prelude.{
  ℕ, Bytes, Bool, true, false, none, some, List, [], ◌∷◌, ◌++◌, if◌then◌else◌, ◌==◌, bytes_eq,
}
use go_cloud_k8s_auth.Prelude.Int.{ℤ}
use go_cloud_k8s_auth.Prelude.Strings.{str, strip_prefix}
use go_cloud_k8s_auth.Prelude.Error.{
  Error, Result, ok, err, wrap, other, Action, pure, raise, lift, map_err, ◌>>=◌, ◌>>◌,
}
use go_cloud_k8s_auth.Platform.{Platform, OauthConfig}
use go_cloud_k8s_auth.AuthService.{Settings, parse_admin_emails}
use go_cloud_k8s_auth.Browser.{BrowserConfig, new_browser_handlers}
use go_cloud_k8s_auth.Server.Routes.{Route, routes}
use go_cloud_k8s_auth.Program.{
  Env, get_env_string, get_env_list, oauth_configs, default_public_base_url,
  default_session_cookie_name, default_session_duration, default_allowed_redirects,
  default_allowed_origins,
}

-- What the libraries answer, in the order of `main`; the calls whose name ends in OrFail end the
-- program where they answer an error here.
pub record Libraries : Type 0 where
  pub get_log_writer : Result (Unit {0})
  pub get_log_level : Result (Unit {0})
  pub get_pg_db_dsn_url : Result Bytes
  pub get_instance : Result (Unit {0})
  pub get_version : Result (Unit {0})
  pub create_metadata_table : Result (Unit {0})
  pub get_service_version : Result (Unit {0})
  pub set_service_version : Result (Unit {0})
  -- iofs.New, migrate.NewWithSourceInstance, Migrate.Up, and whether an error is ErrNoChange
  pub migration_source : Result (Unit {0})
  pub migration : Bytes → Result (Unit {0})
  pub migrate_up : Result (Unit {0})
  pub is_no_change : Error → Bool
  pub get_jwt_auth_url : Result Bytes
  pub get_jwt_status_url : Bytes
  pub get_new_jwt_checker : Result (Unit {0})
  pub get_authenticator : Result (Unit {0})
  pub create_new_server : Result (Unit {0})
  pub register_counter : Result (Unit {0})
  -- DB.GetPGConn, and whether the schema has a table
  pub get_pg_conn : Result (Unit {0})
  pub has_table : Bytes → Result Bool
  -- time.ParseDuration
  pub parse_duration : Bytes → Result ℤ
  pub new_transcoder : Result (Unit {0})
  pub start_server : Result (Unit {0})

pub data Stage : Type 0 where
  log_writer log_level dsn database db_version : Stage
  metadata_table metadata_found metadata_set : Stage
  migration_source migration migrated : Stage
  auth_url jwt authenticator http_server counter : Stage
  user_storage pat_storage session_storage session_duration browser_handlers : Stage
  transcoder served : Stage

-- A stage with its outcome; the state is the list of the stages so far.
unfoldable pub perform : {A : Type 0} → Stage → Result A → Action (List Stage) A
perform stage r done = (r, done ++ stage ∷ [])

-- What the three constructors of the storages share, on the table that each looks for.
unfoldable pub new_pgx : Libraries → Bytes → Result (Unit {0})
new_pgx lib table = elim lib.get_pg_conn [
  | err e ↦ err (wrap e)
  | ok _ ↦ elim (lib.has_table table) [
    | err e ↦ err (wrap e)
    | ok false ↦ err (other 12)
    | ok true ↦ ok tt
  ]
]

abbrev new_pgx_db : Libraries → Result (Unit {0})
new_pgx_db lib = new_pgx lib (str "users")

abbrev new_pgx_pat_store : Libraries → Result (Unit {0})
new_pgx_pat_store lib = new_pgx lib (str "personal_access_tokens")

abbrev new_pgx_session_store : Libraries → Result (Unit {0})
new_pgx_session_store lib = new_pgx lib (str "sessions")

-- The test on the error of `m.Up()`.
unfoldable pub unless_no_change : Libraries → Result (Unit {0}) → Result (Unit {0})
unless_no_change lib (ok _) = ok tt
unless_no_change lib (err e) = if lib.is_no_change e then ok tt else err e

-- `strings.Replace(s, old, new, 1)`
unfoldable pub replace_first : Bytes → Bytes → Bytes → Bytes
replace_first old new [] = elim old [ [] ↦ new | _ ∷ _ ↦ [] ]
replace_first old new (c ∷ s) =
    let rest = replace_first old new s in
    elim (strip_prefix old (c ∷ s)) [ some behind ↦ new ++ behind | none ↦ c ∷ rest ]

unfoldable pub run_migrations_or_fail : Libraries → Bytes → Action (List Stage) (Unit {0})
unfolding unless_no_change replace_first
run_migrations_or_fail lib db_dsn = do
  perform migration_source lib.migration_source
  perform migration (lib.migration (replace_first (str "postgres") (str "pgx5") db_dsn))
  perform migrated (unless_no_change lib lib.migrate_up)

unfoldable pub init_metadata_or_fail : Libraries → Action (List Stage) (Unit {0})
init_metadata_or_fail lib = do
  perform metadata_table lib.create_metadata_table
  perform metadata_found lib.get_service_version
  perform metadata_set lib.set_service_version

-- What the running server is configured with.
pub record Served : Type 0 where
  pub settings : Settings
  pub browser : BrowserConfig
  pub allowed_origins : List Bytes
  pub routes : List Route

-- `browserCfg`, with the parsed duration.
unfoldable pub browser_cfg : Platform → Env → ℤ → BrowserConfig
browser_cfg pf env session_ttl = record {
  public_base_url = get_env_string env (str "AUTH_PUBLIC_BASE_URL") default_public_base_url;
  cookie_name = get_env_string env (str "SESSION_COOKIE_NAME") default_session_cookie_name;
  cookie_domain = get_env_string env (str "COOKIE_DOMAIN") [];
  cookie_secure = get_env_string env (str "COOKIE_SECURE") (str "false") == str "true";
  session_ttl = session_ttl;
  allowed_redirect_uris =
      get_env_list pf env (str "ALLOWED_REDIRECT_URIS") default_allowed_redirects;
}

module _ (pf : Platform) (lib : Libraries) (env : Env) where
  -- Up to the JWT's login URL.
  unfoldable pub connect : Action (List Stage) Bytes
  unfolding init_metadata_or_fail run_migrations_or_fail
  connect = do
    perform log_writer lib.get_log_writer
    perform log_level lib.get_log_level
    db_dsn ← perform dsn lib.get_pg_db_dsn_url
    perform database lib.get_instance
    perform db_version lib.get_version
    init_metadata_or_fail lib
    run_migrations_or_fail lib db_dsn
    perform auth_url lib.get_jwt_auth_url

  -- Up to the routes of the service, and the user storage.
  unfoldable pub set_up : Action (List Stage) (Unit {0})
  unfolding new_pgx
  set_up = do
    perform jwt lib.get_new_jwt_checker
    perform authenticator lib.get_authenticator
    perform http_server lib.create_new_server
    perform counter lib.register_counter
    perform user_storage (new_pgx_db lib)
    perform pat_storage (new_pgx_pat_store lib)
    perform session_storage (new_pgx_session_store lib)

  -- From the browser SSO on.
  unfoldable pub mount : Bytes → Action (List Stage) Served
  unfolding browser_cfg new_browser_handlers
  mount jwt_auth_url = do
    session_ttl ←
        perform session_duration (
          lib.parse_duration (get_env_string env (str "SESSION_DURATION") default_session_duration))
    cfg ← perform browser_handlers (new_browser_handlers (browser_cfg pf env session_ttl))
    perform transcoder lib.new_transcoder
    perform served lib.start_server
    pure (record {
      settings = record {
        oauth_configs = oauth_configs pf env;
        bootstrap_admin_emails = parse_admin_emails pf (env (str "BOOTSTRAP_ADMIN_EMAILS"));
      };
      browser = cfg;
      allowed_origins = get_env_list pf env (str "ALLOWED_ORIGINS") default_allowed_origins;
      routes = routes jwt_auth_url lib.get_jwt_status_url;
    })

  -- An error is `os.Exit(1)` or `log.Fatal`.
  unfoldable pub main : Action (List Stage) Served
  unfolding connect set_up mount
  main = do jwt_auth_url ← connect; set_up; mount jwt_auth_url
