-- ===== src/Program.antt =====
-- cmd/goCloudAuthServer: the constants and the environment of the server program.
pub mod Login
pub mod Startup
mod Tests
use go_cloud_k8s_auth.Prelude.{ℕ, Bytes, List, [], ◌∷◌, if◌then◌else◌, ◌==◌, bytes_eq}
use go_cloud_k8s_auth.Prelude.Strings.{str, is_empty, split}
use go_cloud_k8s_auth.Platform.{Platform, OauthConfig}
use go_cloud_k8s_auth.OauthProviders.{
  OAuthProviderConfig, build_google_config, build_git_hub_config, build_microsoft_config,
}

abbrev pub default_jwt_status_url : Bytes
default_jwt_status_url = str "/status"

abbrev pub default_public_base_url : Bytes
default_public_base_url = str "http://localhost:9090"

abbrev pub default_session_cookie_name : Bytes
default_session_cookie_name = str "goSession"

abbrev pub default_session_duration : Bytes
default_session_duration = str "720h"

abbrev pub default_allowed_redirects : Bytes
default_allowed_redirects = str "http://localhost:8080"

abbrev pub default_allowed_origins : Bytes
default_allowed_origins =
    str "https://golux.lausanne.ch,http://localhost:3000,http://localhost:8080"

-- `os.Getenv`: empty where the variable is not set.
abbrev pub Env : Type 0
Env = Bytes → Bytes

unfoldable pub get_env_string : Env → Bytes → Bytes → Bytes
get_env_string env key default = let val = env key in if is_empty val then default else val

-- The loop of `getEnvList`.
unfoldable pub trimmed_parts : Platform → List Bytes → List Bytes
trimmed_parts pf [] = []
trimmed_parts pf (p ∷ parts) =
    let rest = trimmed_parts pf parts in
    let trimmed = pf.trim_space p in if is_empty trimmed then rest else trimmed ∷ rest

unfoldable pub get_env_list : Platform → Env → Bytes → Bytes → List Bytes
get_env_list pf env key default = trimmed_parts pf (split b',' (get_env_string env key default))

abbrev pub default_redirect : Bytes
default_redirect = str "http://localhost:9090/goapi/v1/auth/callback"

-- One of the three blocks of `main`: a provider is configured if its id and its secret are set.
unfoldable pub provider_config :
    Env
    → Bytes
    → Bytes
    → Bytes
    → Bytes
    → (OAuthProviderConfig → OauthConfig)
    → List (Bytes × OauthConfig)
    → List (Bytes × OauthConfig)
provider_config env name id_key secret_key redirect_key build configs =
    if is_empty (env id_key)
    then configs
    else if is_empty (env secret_key)
    then configs
    else (
      name,
      build (record {
        client_id = env id_key;
        client_secret = env secret_key;
        redirect_url = if is_empty (env redirect_key) then default_redirect else env redirect_key;
      }),
    )
      ∷ configs

-- `oauthConfigs`
unfoldable pub oauth_configs : Platform → Env → List (Bytes × OauthConfig)
oauth_configs pf env =
    provider_config env (str "google") (str "OAUTH_GOOGLE_CLIENT_ID")
      (str "OAUTH_GOOGLE_CLIENT_SECRET") (str "OAUTH_GOOGLE_REDIRECT_URL") (build_google_config pf)
      (provider_config env (str "github") (str "OAUTH_GITHUB_CLIENT_ID")
        (str "OAUTH_GITHUB_CLIENT_SECRET") (str "OAUTH_GITHUB_REDIRECT_URL")
        (build_git_hub_config pf)
        (provider_config env (str "microsoft") (str "OAUTH_MICROSOFT_CLIENT_ID")
          (str "OAUTH_MICROSOFT_CLIENT_SECRET") (str "OAUTH_MICROSOFT_REDIRECT_URL")
          (build_microsoft_config pf) []))
