-- ===== src/OauthProviders.antt =====
-- pkg/auth/oauth_providers.go: the providers' configurations and how their profile answers become
-- an `OAuthUserInfo`. The HTTP round trip and the JSON decoding are answers of the platform.
pub mod Verified
mod Tests
use go_cloud_k8s_auth.Prelude.{
  ℕ, Bytes, ◌==◌, bytes_eq, Bool, true, false, ◌&&◌, Option, none, some, List, [], ◌∷◌,
  if◌then◌else◌,
}
use go_cloud_k8s_auth.Prelude.Strings.{str, is_empty}
use go_cloud_k8s_auth.Prelude.Error.{Result, ok, err, wrap}
use go_cloud_k8s_auth.Domain.{OAuthUserInfo}
use go_cloud_k8s_auth.Platform.{
  Platform, OauthConfig, GoogleProfile, GithubProfile, GithubEmail, MicrosoftProfile,
}

pub record OAuthProviderConfig : Type 0 where
  pub client_id : Bytes
  pub client_secret : Bytes
  pub redirect_url : Bytes

abbrev build_config : OAuthProviderConfig → List Bytes → Bytes → OauthConfig
build_config cfg scopes endpoint = record {
  client_id = cfg.client_id;
  client_secret = cfg.client_secret;
  redirect_url = cfg.redirect_url;
  scopes = scopes;
  endpoint = endpoint;
}

unfoldable pub build_google_config : Platform → OAuthProviderConfig → OauthConfig
build_google_config pf cfg =
    build_config cfg (str "openid" ∷ str "email" ∷ str "profile" ∷ []) pf.google_endpoint

unfoldable pub build_git_hub_config : Platform → OAuthProviderConfig → OauthConfig
build_git_hub_config pf cfg =
    build_config cfg (str "user:email" ∷ str "read:user" ∷ []) pf.github_endpoint

unfoldable pub build_microsoft_config : Platform → OAuthProviderConfig → OauthConfig
build_microsoft_config pf cfg =
    build_config cfg (str "openid" ∷ str "email" ∷ str "profile" ∷ str "User.Read" ∷ [])
      (pf.azure_ad_endpoint (str "common"))

module _ (pf : Platform) where
  unfoldable pub fetch_google_user_info : Bytes → Result OAuthUserInfo
  fetch_google_user_info token = elim (pf.google_profile token) [
    | err e ↦ err (wrap e)
    | ok profile ↦ ok (record {
      provider = str "google";
      provider_id = profile.id;
      email = profile.email;
      name = profile.name;
      avatar_url = profile.picture;
      email_verified = profile.verified_email;
    })
  ]

  -- The three loops of `pickGitHubEmail`, each the first hit.
  find_public : Bytes → List GithubEmail → Bytes × Bool
  find_public public [] = (public, false)
  find_public public (e ∷ emails) =
      if pf.equal_fold e.email public then (public, e.verified) else find_public public emails

  find_primary : List GithubEmail → Option (Bytes × Bool)
  find_primary [] = none
  find_primary (e ∷ emails) = if e.primary then some (e.email, e.verified) else find_primary emails

  find_verified : List GithubEmail → Option (Bytes × Bool)
  find_verified [] = none
  find_verified (e ∷ emails) = if e.verified then some (e.email, true) else find_verified emails

  first_email : List GithubEmail → Bytes × Bool
  first_email [] = ([], false)
  first_email (e ∷ emails) = (e.email, false)

  unfoldable pub pick_git_hub_email : Bytes → List GithubEmail → Bytes × Bool
  unfolding find_public find_primary find_verified first_email
  pick_git_hub_email public emails =
      if is_empty public
      then elim (find_primary emails) [
        | some hit ↦ hit
        | none ↦ elim (find_verified emails) [ some hit ↦ hit | none ↦ first_email emails ]
      ]
      else find_public public emails

  -- Without the emails endpoint nothing is verified.
  emails_or_none : Bytes → List GithubEmail
  emails_or_none token = elim (pf.github_emails token) [ err _ ↦ [] | ok emails ↦ emails ]

  unfoldable pub fetch_git_hub_user_info : Bytes → Result OAuthUserInfo
  unfolding emails_or_none
  fetch_git_hub_user_info token = elim (pf.github_profile token) [
    | err e ↦ err (wrap e)
    | ok profile ↦
        let picked = pick_git_hub_email profile.email (emails_or_none token) in
        ok (record {
          provider = str "github";
          provider_id = pf.decimal profile.id;
          email = picked.0;
          name = if is_empty profile.name then profile.login else profile.name;
          avatar_url = profile.avatar_url;
          email_verified = picked.1;
        })
  ]

  unfoldable pub fetch_microsoft_user_info : Bytes → Result OAuthUserInfo
  fetch_microsoft_user_info token = elim (pf.microsoft_profile token) [
    | err e ↦ err (wrap e)
    | ok profile ↦ ok (record {
      provider = str "microsoft";
      provider_id = profile.id;
      email = if is_empty profile.mail then profile.upn else profile.mail;
      name = profile.display_name;
      avatar_url = [];
      email_verified = false;
    })
  ]

  -- `UserInfoFetcher[provider]`, applied to a token.
  unfoldable pub user_info_fetcher : Bytes → Option (Bytes → Result OAuthUserInfo)
  user_info_fetcher provider =
      if provider == str "google"
      then some fetch_google_user_info
      else if provider == str "github"
      then some fetch_git_hub_user_info
      else if provider == str "microsoft"
      then some fetch_microsoft_user_info
      else none
