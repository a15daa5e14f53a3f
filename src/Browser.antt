-- ===== src/Browser.antt =====
-- pkg/auth/browser_handlers.go: the cookie-based login of module frontends.
pub mod Redirects
pub mod Handlers
mod Tests
use go_cloud_k8s_auth.Prelude.{
  ℕ, ◌*◌, ◌/◌, Bytes, ◌==◌, bytes_eq, Bool, true, false, not, ◌&&◌, ◌||◌, Option, none, some, List,
  [], ◌∷◌, ◌++◌, map, if◌then◌else◌, any, eqb,
}
use go_cloud_k8s_auth.Prelude.Int.{ℤ, pos, negsuc, is_positive}
use go_cloud_k8s_auth.Prelude.Strings.{
  str, is_empty, has_prefix, strip_prefix, ends_with, trim_right, less,
}
use go_cloud_k8s_auth.Prelude.Error.{
  Error, Result, ok, err, Action, other, is, user_disabled, email_in_use,
}
use go_cloud_k8s_auth.Domain.{Uuid, Time, User, Session, admin_role}
use go_cloud_k8s_auth.Platform.{Platform, Url, OauthConfig}
use go_cloud_k8s_auth.Rbac.{has_role}
use go_cloud_k8s_auth.Storage.{UserStorage, SessionStorage}
use go_cloud_k8s_auth.Storage.Db.{sort_by}
use go_cloud_k8s_auth.StateStore.{generate_with_redirect, validate_and_consume}
use go_cloud_k8s_auth.AuthService.{
  App, Settings, on_store, config_of, authenticate_oauth_user, issue_jwt_for_user,
}

pub record BrowserConfig : Type 0 where
  pub public_base_url : Bytes
  pub cookie_name : Bytes
  pub cookie_domain : Bytes
  pub cookie_secure : Bool
  -- nanoseconds
  pub session_ttl : ℤ
  pub allowed_redirect_uris : List Bytes

-- The checks and the normalisation of `NewBrowserHandlers`, with its other arguments not nil.
unfoldable pub new_browser_handlers : BrowserConfig → Result BrowserConfig
new_browser_handlers cfg =
    if is_empty cfg.public_base_url || is_empty cfg.cookie_name || not (is_positive cfg.session_ttl)
    then err (other 8)
    else ok (record cfg { public_base_url = trim_right b'/' cfg.public_base_url })

-- What the handlers read of an HTTP request; a query parameter that is missing is empty.
pub record Request : Type 0 where
  pub provider : Bytes
  pub redirect_uri : Bytes
  pub error : Bytes
  pub state : Bytes
  pub code : Bytes
  pub cookie : Bytes → Option Bytes
  pub user_agent : Bytes
  pub real_ip : Bytes

pub record Cookie : Type 0 where
  pub name : Bytes
  pub value : Bytes
  pub path : Bytes
  pub domain : Bytes
  pub max_age : ℤ
  pub http_only : Bool
  pub secure : Bool
  pub same_site_lax : Bool

pub record LoginPageProvider : Type 0 where
  pub name : Bytes
  pub label : Bytes

pub record TokenResponse : Type 0 where
  pub token : Bytes
  pub expires_in_seconds : ℕ
  pub user_id : ℤ
  pub email : Bytes
  pub name : Bytes
  pub avatar_url : Bytes
  pub is_admin : Bool

-- A plain text or JSON error with its status, a redirect (302), the login page, and the JSON answers.
pub data Response : Type 0 where
  text failed : ℕ → Response
  redirect : Bytes → Response
  login_page : List LoginPageProvider → Bytes → Response
  minted : TokenResponse → Response
  logged_out : Response

-- A handler: the response, and the cookie that it sets if it sets one.
abbrev pub Page : Type 0 → Type 0
Page S = App S → Response × Option Cookie × App S

-- What may follow a matched prefix.
abbrev pub at_boundary : Bytes → Bool
at_boundary [] = true
at_boundary (c ∷ _) = eqb c b'/' || eqb c b'?' || eqb c b'#'

-- One round of the loop over the configured prefixes.
unfoldable pub prefix_allows : Bytes → Bytes → Bool
prefix_allows uri prefix = if is_empty prefix then false else elim (strip_prefix prefix uri) [
  | none ↦ false
  | some rest ↦ ends_with prefix b'/' || at_boundary rest
]

-- The test on the parsed URL.
abbrev pub is_web_url : Option Url → Bool
is_web_url none = false
is_web_url (some u) = (u.scheme == str "http" || u.scheme == str "https") && not (is_empty u.host)

abbrev pub provider_label : Bytes → Bytes
provider_label name =
    if name == str "google"
    then str "Google"
    else if name == str "github"
    then str "GitHub"
    else if name == str "microsoft"
    then str "Microsoft"
    else name

module _ (pf : Platform) (cfg : BrowserConfig) where
  unfoldable pub is_allowed_redirect : Bytes → Bool
  is_allowed_redirect uri =
      if is_empty uri
      then false
      else if has_prefix uri (str "/") && not (has_prefix uri (str "//"))
      then true
      else if not (is_web_url (pf.parse_url uri))
      then false
      else any (prefix_allows uri) cfg.allowed_redirect_uris

  abbrev pub callback_url : Bytes → Bytes
  callback_url provider =
      cfg.public_base_url ++ (str "/auth/oauth/" ++ (provider ++ str "/callback"))

  abbrev cookie_of : Bytes → ℤ → Cookie
  cookie_of value max_age = record {
    name = cfg.cookie_name;
    value = value;
    path = str "/";
    domain = cfg.cookie_domain;
    max_age = max_age;
    http_only = true;
    secure = cfg.cookie_secure;
    same_site_lax = true;
  }

  -- The configured lifetime, which `NewBrowserHandlers` has found positive.
  abbrev pub lifetime : ℕ
  lifetime = elim cfg.session_ttl [ pos n ↦ n | negsuc _ ↦ 0 ]

  abbrev pub session_cookie : Bytes → Cookie
  session_cookie raw_token = cookie_of raw_token (pos (lifetime / 1000000000))

  abbrev pub cleared_cookie : Cookie
  cleared_cookie = cookie_of [] (negsuc 0)

  -- The value of the session cookie, unless it is missing or empty.
  abbrev pub cookie_value : Request → Option Bytes
  cookie_value req = elim (req.cookie cfg.cookie_name) [
    | none ↦ none
    | some v ↦ if is_empty v then none else some v
  ]

-- `if redirectURI == "" { redirectURI = "/" }`
abbrev pub or_root : Bytes → Bytes
or_root uri = if is_empty uri then str "/" else uri

-- The status of a failed login.
abbrev pub login_status : Error → ℕ
login_status e = if is e user_disabled then 403 else if is e email_in_use then 409 else 502
