-- ===== src/Fixtures.antt =====
-- A concrete platform, configuration and database, on which the tests and the witnesses run.
use go_cloud_k8s_auth.Prelude.{
  ℕ, ◌+◌, ◌*◌, Bytes, bytes_beq, Bool, true, false, none, some, [], ◌∷◌, if◌then◌else◌,
}
use go_cloud_k8s_auth.Prelude.Int.{pos}
use go_cloud_k8s_auth.Prelude.Strings.{str, has_prefix}
use go_cloud_k8s_auth.Prelude.Error.{ok, err, other, sentinel, no_rows}
use go_cloud_k8s_auth.Domain.{Uuid, User, OAuthUserInfo}
use go_cloud_k8s_auth.Platform.{Platform, UserInfo}
use go_cloud_k8s_auth.Storage.Db.{Db}
use go_cloud_k8s_auth.AuthService.{Settings, App}
use go_cloud_k8s_auth.StateStore.{StateStore, insert}
use go_cloud_k8s_auth.Server.{Codec, Wiring, Moment}
use go_cloud_k8s_auth.Server.Routes.{Network, at_oauth_callback, transcoder}
use go_cloud_k8s_auth.Server.Runs.{pgx_wiring}
use go_cloud_k8s_auth.Browser.{BrowserConfig, Request}

-- A UUID by its last byte.
abbrev pub uuid : ℕ → Uuid
uuid n = 0 ∷ 0 ∷ 0 ∷ 0 ∷ 0 ∷ 0 ∷ 0 ∷ 0 ∷ 0 ∷ 0 ∷ 0 ∷ 0 ∷ 0 ∷ 0 ∷ 0 ∷ n ∷ []

abbrev pub alice_email : Bytes
alice_email = str "al@x.org"

abbrev pub bob_email : Bytes
bob_email = str "bo@x.org"

abbrev pub alice : User
alice = record {
  id = uuid 1;
  alternate_app_id = pos 1;
  email = alice_email;
  name = str "Alice";
  avatar_url = [];
  provider = str "github";
  provider_id = str "7";
  roles = some (str "user" ∷ []);
  is_active = true;
  created_at = some 1;
  last_login_at = none;
}

abbrev pub bob : User
bob = record {
  id = uuid 2;
  alternate_app_id = pos 2;
  email = bob_email;
  name = str "Bob";
  avatar_url = [];
  provider = str "local";
  provider_id = [];
  roles = some (str "admin" ∷ []);
  is_active = true;
  created_at = some 2;
  last_login_at = none;
}

abbrev pub claims_of : User → Bool → UserInfo
claims_of u admin = record {
  user_id = u.alternate_app_id;
  external_id = u.alternate_app_id;
  name = u.name;
  email = u.email;
  login = u.email;
  is_admin = admin;
  groups = [];
}

-- Texts are their own UUIDs and hashes; a JWT is the login in its claims.
abbrev pub test_platform : Platform
test_platform = record {
  to_lower = λ s. s;
  trim_space = λ s. s;
  equal_fold = bytes_beq;
  decimal = λ n. (48 + n) ∷ [];
  sha256 = λ s. s;
  parse_url = λ s. some (record { scheme = str "https"; host = s });
  parse_uuid = λ s. some s;
  uuid_string = λ id. id;
  add_days = λ t n. t + n * 86400000000000;
  parse_token = λ s.
      if bytes_beq s alice_email
      then ok (claims_of alice false)
      else if bytes_beq s bob_email
      then ok (claims_of bob true)
      else err (other 9);
  scan = λ at limit offset us. us;
  token_from_user_info = λ claims. ok claims.login;
  jwt_duration = 60;
  auth_code_url = λ cfg state. state;
  exchange = λ cfg code. ok code;
  google_endpoint = str "google";
  github_endpoint = str "github";
  azure_ad_endpoint = λ tenant. tenant;
  google_profile = λ token. err (other 10);
  github_profile = λ token.
      ok (record { id = 7; login = str "al"; name = str "Alice"; email = []; avatar_url = [] });
  github_emails =
      λ token. ok (record { email = alice_email; primary = true; verified = true } ∷ []);
  microsoft_profile = λ token. err (other 11);
  gen_uuid = uuid;
  not_found = sentinel no_rows;
}

abbrev pub test_settings : Settings
test_settings = record {
  oauth_configs =
      (
        str "github",
        record {
          client_id = str "id";
          client_secret = str "secret";
          redirect_url = [];
          scopes = [];
          endpoint = str "github";
        },
      )
      ∷ [];
  bootstrap_admin_emails = alice_email ∷ [];
}

abbrev pub two_users : Db
two_users = record {
  users = alice ∷ bob ∷ [];
  groups = [];
  user_groups = [];
  sessions = [];
  pats = [];
  seq = 3;
  user_seq = 3;
  faults = [];
}

-- A login with GitHub that is under way, with the state "s".
abbrev pub waiting : StateStore
waiting = record {
  states =
      insert (str "s")
        (record { provider = str "github"; redirect_uri = str "/home"; expires_at = 100 })
        λ _. none;
  ttl = 50;
}

abbrev pub test_app : App Db
test_app = record { states = waiting; store = two_users }

abbrev pub test_browser : BrowserConfig
test_browser = record {
  public_base_url = str "https://auth";
  cookie_name = str "sid";
  cookie_domain = [];
  cookie_secure = true;
  session_ttl = pos 3000000000;
  allowed_redirect_uris = str "https://app" ∷ [];
}

abbrev pub test_request : Bytes → Request
test_request cookie = record {
  provider = str "github";
  redirect_uri = str "/home";
  error = [];
  state = str "s";
  code = str "c";
  cookie = λ name. some cookie;
  user_agent = [];
  real_ip = [];
}

abbrev pub newcomer_info : Bool → Bytes → OAuthUserInfo
newcomer_info verified email = record {
  provider = str "google";
  provider_id = str "9";
  email = email;
  name = str "Carol";
  avatar_url = [];
  email_verified = verified;
}

-- A body is its own text.
abbrev pub test_codec : Codec
test_codec = record {
  start_oauth = λ s. some (s, []);
  oauth_callback = λ s. some (str "github", s, str "s");
  validate_token = λ s. some s;
  introspect_token = λ s. some s;
  is_message = λ s. some tt;
  create_personal_access_token = λ s. some (s, [], pos 0);
  revoke_personal_access_token = λ s. some s;
  list = λ s. some (pos 0, pos 10, false);
  create = λ s. some none;
  get = λ s. some s;
  update = λ s. some (s, none);
  delete = λ s. some s;
  count = λ s. some false;
  get_by_external_id = λ s. some (pos 1);
}

abbrev pub test_network : Network
test_network = record {
  find_route = λ rs req.
      if has_prefix req.path (str "/auth/oauth")
      then some (at_oauth_callback, str "github")
      else some (transcoder [], []);
  transcode = λ req path. some (path, req.body);
}

abbrev pub test_wiring : Wiring Db
test_wiring = pgx_wiring test_platform test_settings test_browser test_codec

abbrev pub moment_with : Bytes → Moment
moment_with authorization = record {
  now = 9;
  random = ok (1 ∷ 2 ∷ 3 ∷ []);
  draw = λ i. ok i;
  authorization = authorization;
}
