-- ===== src/Program/Tests.antt =====
-- Runs and witnesses for the server program.
use go_cloud_k8s_auth.Prelude.{
  Bytes, bytes_beq, bytes_eq, ◌==◌, true, some, List, [], ◌∷◌, ◌≡◌, ◌↔◌, refl, if◌then◌else◌,
}
use go_cloud_k8s_auth.Prelude.Int.{pos}
use go_cloud_k8s_auth.Prelude.Strings.{str, trim_right}
use go_cloud_k8s_auth.Prelude.Error.{ok, err, other}
use go_cloud_k8s_auth.Browser.{new_browser_handlers}
use go_cloud_k8s_auth.AuthService.{parse_admin_emails}
use go_cloud_k8s_auth.Server.Routes.{routes}
use go_cloud_k8s_auth.Program.{
  default_allowed_origins, Env, get_env_string, get_env_list, oauth_configs,
}
use go_cloud_k8s_auth.Program.Login.{LoginRequest, Authenticator, login, is_blank}
use go_cloud_k8s_auth.Program.Login.Accounts.{answer_for, json_logins_conflated}
use go_cloud_k8s_auth.Program.Startup.{
  Libraries, Stage, Served, main, connect, set_up, mount, perform, new_pgx, browser_cfg,
  init_metadata_or_fail, run_migrations_or_fail, unless_no_change, log_writer, log_level, dsn,
  database,
}
use go_cloud_k8s_auth.Program.Startup.Ready.{IsReady, main-serves_iff}
use go_cloud_k8s_auth.Program.Startup.Configured.{IsConfigured, main-IsConfigured}
use go_cloud_k8s_auth.Fixtures.{bob, alice_email, bob_email, claims_of, test_platform}

abbrev working : Libraries
working = record {
  get_log_writer = ok tt;
  get_log_level = ok tt;
  get_pg_db_dsn_url = ok (str "postgres://x");
  get_instance = ok tt;
  get_version = ok tt;
  create_metadata_table = ok tt;
  get_service_version = ok tt;
  set_service_version = ok tt;
  migration_source = ok tt;
  migration = λ url. ok tt;
  migrate_up = err (other 1);
  is_no_change = λ e. true;
  get_jwt_auth_url = ok (str "/login");
  get_jwt_status_url = str "/status";
  get_new_jwt_checker = ok tt;
  get_authenticator = ok tt;
  create_new_server = ok tt;
  register_counter = ok tt;
  get_pg_conn = ok tt;
  has_table = λ table. ok true;
  parse_duration = λ s. ok (pos 720);
  new_transcoder = ok tt;
  start_server = ok tt;
}

-- GitHub is configured, without a redirect URL.
abbrev github_env : Env
github_env key =
    if key == str "OAUTH_GITHUB_CLIENT_ID"
    then str "id"
    else if key == str "OAUTH_GITHUB_CLIENT_SECRET"
    then str "secret"
    else []

-- Without a database the program stops at its fourth stage.
no_database :
    main test_platform (record working { get_instance = err (other 2) }) github_env []
    ≡ (err (other 2), log_writer ∷ log_level ∷ dsn ∷ database ∷ [])
unfolding main connect perform
no_database = refl

abbrev running : Served
running = record {
  settings = record {
    oauth_configs = oauth_configs test_platform github_env;
    bootstrap_admin_emails = parse_admin_emails test_platform [];
  };
  browser = browser_cfg test_platform github_env (pos 720);
  allowed_origins =
      get_env_list test_platform github_env (str "ALLOWED_ORIGINS") default_allowed_origins;
  routes = routes (str "/login") (str "/status");
}

abbrev done : List Stage
done = (main test_platform working github_env []).1

main-serves_iff_example :
    ((after : List Stage) × (main test_platform working github_env [] ≡ (ok running, after)))
    ↔ IsReady test_platform working github_env running
main-serves_iff_example = main-serves_iff test_platform working github_env running

main-IsConfigured_example : IsConfigured test_platform github_env running
unfolding main connect set_up mount perform new_pgx init_metadata_or_fail run_migrations_or_fail
    unless_no_change browser_cfg new_browser_handlers get_env_string bytes_beq trim_right
main-IsConfigured_example = main-IsConfigured test_platform working github_env done running refl

-- Alice and Bob, each with a password of one's own, and one account.
abbrev two_passwords : Authenticator
two_passwords = record {
  authenticate_user = λ login hash. login == hash;
  get_user_info_from_login = λ login. ok (claims_of bob true);
}

abbrev json : Bytes → LoginRequest
json name = record {
  form_value = λ key. [];
  bind = some (record { username = name; password_hash = name });
}

json_logins_conflated_example :
    (login test_platform two_passwords (json alice_email)
      ≡ login test_platform two_passwords (json bob_email))
    × (login test_platform two_passwords (json alice_email)
        ≡ answer_for test_platform two_passwords [])
unfolding bytes_beq
json_logins_conflated_example =
    json_logins_conflated test_platform two_passwords (json alice_email) (json bob_email)
      (record { username = alice_email; password_hash = alice_email })
      (record { username = bob_email; password_hash = bob_email }) refl refl refl refl refl refl

-- A blank login of the form is none.
blank_login : is_blank (str "  ") ≡ true
unfolding is_blank trim_right
blank_login = refl
