-- ===== src/Program/Startup/Ready.antt =====
-- When `main` of cmd/goCloudAuthServer/goCloudAuthServer.go gets to serve.
use go_cloud_k8s_auth.Prelude.{
  Bytes, true, List, [], ◌∷◌, ◌++◌, ◌≡◌, ◌↔◌, ◌⊎◌, inl, inr, refl, arith,
}
use go_cloud_k8s_auth.Prelude.Int.{ℤ}
use go_cloud_k8s_auth.Prelude.Strings.{str}
use go_cloud_k8s_auth.Prelude.Error.{Error, Result, Result-cases, ok, err, Action, pure, ◌>>=◌}
use go_cloud_k8s_auth.Prelude.Invert.{>>=-ok}
use go_cloud_k8s_auth.Platform.{Platform}
use go_cloud_k8s_auth.AuthService.{parse_admin_emails}
use go_cloud_k8s_auth.Server.Routes.{routes}
use go_cloud_k8s_auth.Browser.{BrowserConfig, new_browser_handlers}
use go_cloud_k8s_auth.Program.{
  Env, get_env_string, get_env_list, oauth_configs, default_session_duration,
  default_allowed_origins,
}
use go_cloud_k8s_auth.Program.Startup.{
  Libraries, Stage, Served, perform, new_pgx, unless_no_change, replace_first,
  run_migrations_or_fail, init_metadata_or_fail, connect, set_up, mount, main, browser_cfg,
  log_writer, log_level, dsn, database, db_version, auth_url, jwt, authenticator, http_server,
  counter, user_storage, pat_storage, session_storage, session_duration, browser_handlers,
  transcoder, served, metadata_table, metadata_found, metadata_set, migration_source, migration,
  migrated,
}

-- What a chain of stages succeeds with, and when it does, whatever stages were done before.
record Gives {A : Type 0} (P : A → Type 0) (m : Action (List Stage) A) : Type 0 where
  only : (before after : List Stage) (a : A) → m before ≡ (ok a, after) → P a
  all : (before : List Stage) (a : A) → P a → (after : List Stage) × (m before ≡ (ok a, after))

pure-Gives : {A : Type 0} (a : A) → Gives (λ b. b ≡ a) (pure a)
pure-Gives a = record {
  only = λ before after b h. ground arith;
  all = λ before b h. (before, rw h refl);
}

perform-Gives :
    {A : Type 0} (stage : Stage) (r : Result A) → Gives (λ a. r ≡ ok a) (perform stage r)
unfolding perform
perform-Gives stage r = record {
  only = λ before after a h. ground arith;
  all = λ before a h. (before ++ stage ∷ [], rw h refl);
}

bind-Gives :
    {A B : Type 0} (P : A → Type 0) (Q : A → B → Type 0) (m : Action (List Stage) A)
    (f : A → Action (List Stage) B)
    → Gives P m
    → ((a : A) → Gives (Q a) (f a))
    → Gives (λ b. (a : A) × P a × Q a b) (m >>= f)
bind-Gives P Q m f h k = record {
  only = λ before after b e.
      let (a, t, g, l) = >>=-ok m f before e in (a, h.only before t a g, (k a).only t after b l);
  all = λ before b (a, p, q).
      let (t, g) = h.all before a p in let (u, l) = (k a).all t b q in (u, ground arith);
}

then-Gives :
    {B : Type 0} (P : Unit {0} → Type 0) (Q : B → Type 0) (m : Action (List Stage) (Unit {0}))
    (f : Action (List Stage) B)
    → Gives P m
    → Gives Q f
    → Gives (λ b. P tt × Q b) (m >>= λ _. f)
then-Gives P Q m f h k = record {
  only = λ before after b e.
      let (a, t, g, l) = >>=-ok m (λ _. f) before e in (h.only before t tt g, k.only t after b l);
  all = λ before b (p, q).
      let (t, g) = h.all before tt p in let (u, l) = k.all t b q in (u, ground arith);
}

iff-Gives :
    {A : Type 0} {P Q : A → Type 0} {m : Action (List Stage) A}
    → ((a : A) → P a ↔ Q a)
    → Gives P m
    → Gives Q m
iff-Gives i h = record {
  only = λ before after a e. (i a).0 (h.only before after a e);
  all = λ before a q. h.all before a ((i a).1 q);
}

-- What a storage's constructor finds: a connection, and its table.
abbrev pub HasTable : Libraries → Bytes → Type 0
HasTable lib table = (lib.get_pg_conn ≡ ok tt) × (lib.has_table table ≡ ok true)

new_pgx_iff : (lib : Libraries) (table : Bytes) → (new_pgx lib table ≡ ok tt) ↔ HasTable lib table
unfolding new_pgx
new_pgx_iff lib table = (λ h. ground arith, λ h. ground arith)

-- The migrations ran, or there was nothing to migrate.
abbrev pub HasMigrated : Libraries → Type 0
HasMigrated lib =
    (lib.migrate_up ≡ ok tt)
    ⊎ ((e : Error) × (lib.migrate_up ≡ err e) × (lib.is_no_change e ≡ true))

-- And against the database's URL for the driver pgx5.
abbrev pub IsMigrated : Libraries → Bytes → Type 0
IsMigrated lib url =
    (lib.migration_source ≡ ok tt)
    × ((lib.migration (replace_first (str "postgres") (str "pgx5") url) ≡ ok tt) × HasMigrated lib)

migrate_up_iff : (lib : Libraries) → (unless_no_change lib lib.migrate_up ≡ ok tt) ↔ HasMigrated lib
unfolding unless_no_change
migrate_up_iff lib = (
  λ h. elim (Result-cases lib.migrate_up) [
    | inl (_, e) ↦ inl (ground arith)
    | inr (x, e) ↦ inr (x, e, ground arith)
  ],
  λ h. elim h [ inl e ↦ rw e refl | inr (x, e, n) ↦ rw (e, n) refl ],
)

abbrev pub HasMetadata : Libraries → Type 0
HasMetadata lib =
    (lib.create_metadata_table ≡ ok tt)
    × ((lib.get_service_version ≡ ok tt) × (lib.set_service_version ≡ ok tt))

-- The answers that the start-up needs up to the login's URL, for the services, and for the mounting.
abbrev pub IsConnected : Libraries → Bytes → Type 0
IsConnected lib jwt_auth_url =
    (lib.get_log_writer ≡ ok tt)
    × ((lib.get_log_level ≡ ok tt)
        × ((db_dsn : Bytes) × (lib.get_pg_db_dsn_url ≡ ok db_dsn)
            × ((lib.get_instance ≡ ok tt)
                × ((lib.get_version ≡ ok tt)
                    × (HasMetadata lib
                        × (IsMigrated lib db_dsn × (lib.get_jwt_auth_url ≡ ok jwt_auth_url)))))))

abbrev pub IsSetUp : Libraries → Type 0
IsSetUp lib =
    (lib.get_new_jwt_checker ≡ ok tt)
    × ((lib.get_authenticator ≡ ok tt)
        × ((lib.create_new_server ≡ ok tt)
            × ((lib.register_counter ≡ ok tt)
                × (HasTable lib (str "users")
                    × (HasTable lib (str "personal_access_tokens")
                        × HasTable lib (str "sessions"))))))

-- The server that runs, by the environment and the accepted configuration of the browser handlers.
abbrev pub running : Platform → Libraries → Env → Bytes → BrowserConfig → Served
running pf lib env jwt_auth_url cfg = record {
  settings = record {
    oauth_configs = oauth_configs pf env;
    bootstrap_admin_emails = parse_admin_emails pf (env (str "BOOTSTRAP_ADMIN_EMAILS"));
  };
  browser = cfg;
  allowed_origins = get_env_list pf env (str "ALLOWED_ORIGINS") default_allowed_origins;
  routes = routes jwt_auth_url lib.get_jwt_status_url;
}

abbrev pub IsMounted : Platform → Libraries → Env → Bytes → Served → Type 0
IsMounted pf lib env jwt_auth_url s =
    (session_ttl : ℤ) × (lib.parse_duration
        (get_env_string env (str "SESSION_DURATION") default_session_duration)
      ≡ ok session_ttl)
    × ((cfg : BrowserConfig) × (new_browser_handlers (browser_cfg pf env session_ttl) ≡ ok cfg)
        × ((lib.new_transcoder ≡ ok tt)
            × ((lib.start_server ≡ ok tt) × (s ≡ running pf lib env jwt_auth_url cfg))))

abbrev pub IsReady : Platform → Libraries → Env → Served → Type 0
IsReady pf lib env s =
    (url : Bytes) × IsConnected lib url × (IsSetUp lib × IsMounted pf lib env url s)

module _ (pf : Platform) (lib : Libraries) (env : Env) where
  migrations-Gives :
      (url : Bytes) → Gives (λ _. IsMigrated lib url) (run_migrations_or_fail lib url)
  unfolding run_migrations_or_fail
  migrations-Gives url = then-Gives _ _ _ _ (perform-Gives migration_source lib.migration_source) (
      then-Gives _ _ _ _
        (perform-Gives migration (lib.migration (replace_first (str "postgres") (str "pgx5") url)))
        (iff-Gives (λ _. migrate_up_iff lib)
          (perform-Gives migrated (unless_no_change lib lib.migrate_up))))

  metadata-Gives : Gives (λ _. HasMetadata lib) (init_metadata_or_fail lib)
  unfolding init_metadata_or_fail
  metadata-Gives = then-Gives _ _ _ _ (perform-Gives metadata_table lib.create_metadata_table) (
      then-Gives _ _ _ _ (perform-Gives metadata_found lib.get_service_version)
        (perform-Gives metadata_set lib.set_service_version))

  connect-Gives : Gives (IsConnected lib) (connect pf lib env)
  unfolding connect
  connect-Gives = then-Gives _ _ _ _ (perform-Gives log_writer lib.get_log_writer) (
      then-Gives _ _ _ _ (perform-Gives log_level lib.get_log_level) (
        bind-Gives _ _ _ _ (perform-Gives dsn lib.get_pg_db_dsn_url) λ url.
          then-Gives _ _ _ _ (perform-Gives database lib.get_instance) (
            then-Gives _ _ _ _ (perform-Gives db_version lib.get_version) (
              then-Gives _ _ _ _ metadata-Gives (
                then-Gives _ _ _ _ (migrations-Gives url)
                  (perform-Gives auth_url lib.get_jwt_auth_url))))))

  storage-Gives :
      (stage : Stage) (table : Bytes)
      → Gives (λ _. HasTable lib table) (perform stage (new_pgx lib table))
  storage-Gives stage table =
      iff-Gives (λ _. new_pgx_iff lib table) (perform-Gives stage (new_pgx lib table))

  set_up-Gives : Gives (λ _. IsSetUp lib) (set_up pf lib env)
  unfolding set_up
  set_up-Gives = then-Gives _ _ _ _ (perform-Gives jwt lib.get_new_jwt_checker) (
      then-Gives _ _ _ _ (perform-Gives authenticator lib.get_authenticator) (
        then-Gives _ _ _ _ (perform-Gives http_server lib.create_new_server) (
          then-Gives _ _ _ _ (perform-Gives counter lib.register_counter) (
            then-Gives _ _ _ _ (storage-Gives user_storage (str "users")) (
              then-Gives _ _ _ _ (storage-Gives pat_storage (str "personal_access_tokens"))
                (storage-Gives session_storage (str "sessions")))))))

  mount-Gives : (url : Bytes) → Gives (IsMounted pf lib env url) (mount pf lib env url)
  unfolding mount
  mount-Gives url =
      bind-Gives _ _ _ _
        (perform-Gives session_duration (
          lib.parse_duration
            (get_env_string env (str "SESSION_DURATION") default_session_duration)))
        λ ttl.
          bind-Gives _ _ _ _
            (perform-Gives browser_handlers (new_browser_handlers (browser_cfg pf env ttl)))
            λ cfg. then-Gives _ _ _ _ (perform-Gives transcoder lib.new_transcoder) (
              then-Gives _ _ _ _ (perform-Gives served lib.start_server)
                (pure-Gives (running pf lib env url cfg)))

  main-Gives : Gives (IsReady pf lib env) (main pf lib env)
  unfolding main
  main-Gives =
      bind-Gives _ _ _ _ connect-Gives λ url. then-Gives _ _ _ _ set_up-Gives (mount-Gives url)

  -- The program ends by serving with a configuration exactly if every library answers without an error,
  -- except that Migrate.Up may answer ErrNoChange; each of the tables of users, tokens and sessions exists;
  -- the session lifetime parses and the browser handlers accept their configuration.
  pub main-serves_iff :
      (s : Served)
      → ((after : List Stage) × (main pf lib env [] ≡ (ok s, after))) ↔ IsReady pf lib env s
  main-serves_iff s = (λ h. main-Gives.only [] h.0 s h.1, λ h. main-Gives.all [] s h)
