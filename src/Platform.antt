-- ===== src/Platform.antt =====
-- What the program calls and does not implement: Unicode-aware string functions, SHA-256, UUID and
-- URL parsing, the JWT checker of go-cloud-k8s-common-libs, the OAuth providers, and the scanner of
-- database rows. Each is a function whose values are the answers at the time of a request.
use go_cloud_k8s_auth.Prelude.{ℕ, Bool, Bytes, Option, List, ◌≡◌, true}
use go_cloud_k8s_auth.Prelude.Int.{ℤ}
use go_cloud_k8s_auth.Prelude.Error.{Error, Result, is, no_rows}
use go_cloud_k8s_auth.Domain.{Uuid, Time, User}

-- `url.URL`, of which the program reads two fields.
pub record Url : Type 0 where
  pub scheme : Bytes
  pub host : Bytes

-- `goHttpEcho.UserInfo`, the user in the claims of a JWT.
pub record UserInfo : Type 0 where
  pub user_id : ℤ
  pub external_id : ℤ
  pub name : Bytes
  pub email : Bytes
  pub login : Bytes
  pub is_admin : Bool
  pub groups : List ℕ

-- `oauth2.Config`
pub record OauthConfig : Type 0 where
  pub client_id : Bytes
  pub client_secret : Bytes
  pub redirect_url : Bytes
  pub scopes : List Bytes
  pub endpoint : Bytes

-- The answers of the providers' profile endpoints, as the anonymous structs of oauth_providers.go.
pub record GoogleProfile : Type 0 where
  pub id : Bytes
  pub email : Bytes
  pub name : Bytes
  pub picture : Bytes
  pub verified_email : Bool

pub record GithubProfile : Type 0 where
  pub id : ℕ
  pub login : Bytes
  pub name : Bytes
  pub email : Bytes
  pub avatar_url : Bytes

pub record GithubEmail : Type 0 where
  pub email : Bytes
  pub primary : Bool
  pub verified : Bool

pub record MicrosoftProfile : Type 0 where
  pub id : Bytes
  pub display_name : Bytes
  pub mail : Bytes
  pub upn : Bytes

pub record Platform : Type 0 where
  -- strings.ToLower, strings.TrimSpace, strings.EqualFold
  pub to_lower : Bytes → Bytes
  pub trim_space : Bytes → Bytes
  pub equal_fold : Bytes → Bytes → Bool
  -- fmt's `%d`
  pub decimal : ℕ → Bytes
  -- sha256.Sum256
  pub sha256 : Bytes → Bytes
  -- url.Parse, uuid.Parse, UUID.String
  pub parse_url : Bytes → Option Url
  pub parse_uuid : Bytes → Option Uuid
  pub uuid_string : Uuid → Bytes
  -- Time.AddDate(0, 0, days)
  pub add_days : Time → ℕ → Time
  -- JwtChecker.ParseToken, GetTokenFromUserInfo, GetJwtDuration
  pub parse_token : Bytes → Result UserInfo
  -- The order in which PostgreSQL comes upon the rows of `users` that a query selects, at a time and
  -- with a limit and an offset, before it sorts them.
  pub scan : Time → ℤ → ℤ → List User → List User
  pub token_from_user_info : UserInfo → Result Bytes
  pub jwt_duration : ℕ
  -- Config.AuthCodeURL, Config.Exchange
  pub auth_code_url : OauthConfig → Bytes → Bytes
  pub exchange : OauthConfig → Bytes → Result Bytes
  -- the endpoints of packages google, github and microsoft of golang.org/x/oauth2
  pub google_endpoint : Bytes
  pub github_endpoint : Bytes
  pub azure_ad_endpoint : Bytes → Bytes
  -- an authorised GET of a profile endpoint with its body decoded
  pub google_profile : Bytes → Result GoogleProfile
  pub github_profile : Bytes → Result GithubProfile
  pub github_emails : Bytes → Result (List GithubEmail)
  pub microsoft_profile : Bytes → Result MicrosoftProfile
  -- gen_random_uuid() of the database, by the number of rows inserted before
  pub gen_uuid : ℕ → Uuid
  -- the error of pgxscan.Get where the query returns no row
  pub not_found : Error

-- The documented behaviour of pgxscan: `errors.Is` finds pgx.ErrNoRows in that error.
abbrev pub ReportsNoRows : Platform → Type 0
ReportsNoRows pf = is pf.not_found no_rows ≡ true
