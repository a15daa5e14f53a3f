-- ===== src/OauthProviders/Tests.antt =====
-- Runs and witnesses for the providers' profiles.
use go_cloud_k8s_auth.Prelude.{bytes_beq, true, false, [], ◌∷◌, ◌≡◌, refl}
use go_cloud_k8s_auth.Prelude.Strings.{str}
use go_cloud_k8s_auth.Domain.{OAuthUserInfo}
use go_cloud_k8s_auth.OauthProviders.{
  fetch_git_hub_user_info, pick_git_hub_email, user_info_fetcher,
}
use go_cloud_k8s_auth.OauthProviders.Verified.{IsVouched, verified-IsVouched}
use go_cloud_k8s_auth.Fixtures.{alice_email, test_platform}

abbrev alice_info : OAuthUserInfo
alice_info = record {
  provider = str "github";
  provider_id = str "7";
  email = alice_email;
  name = str "Alice";
  avatar_url = [];
  email_verified = true;
}

-- Without a primary or verified address the first one counts, unverified.
first_address :
    pick_git_hub_email test_platform []
      (record { email = alice_email; primary = false; verified = false } ∷ [])
    ≡ (alice_email, false)
unfolding pick_git_hub_email
first_address = refl

verified-IsVouched_example : IsVouched test_platform (str "github") (str "token") alice_info
unfolding user_info_fetcher fetch_git_hub_user_info pick_git_hub_email bytes_beq
verified-IsVouched_example =
    verified-IsVouched test_platform (str "github") (str "token")
      (fetch_git_hub_user_info test_platform) alice_info refl refl refl
