-- ===== src/Browser/Tests.antt =====
-- Runs and witnesses for the redirect check.
use go_cloud_k8s_auth.Prelude.{bytes_beq, true, false, bytes_eq, ◌∷◌, ◌≡◌, ◌⊎◌, ◌↔◌, Any, refl}
use go_cloud_k8s_auth.Prelude.Strings.{str, has_prefix, strip_prefix, ends_with}
use go_cloud_k8s_auth.Browser.{is_allowed_redirect, is_web_url, prefix_allows}
use go_cloud_k8s_auth.Browser.Redirects.{IsLocalPath, Covers, is_allowed_redirect_iff}
use go_cloud_k8s_auth.Fixtures.{test_platform, test_browser}

-- A host that only begins like the allowed one.
lookalike_refused : is_allowed_redirect test_platform test_browser (str "https://app.evil") ≡ false
unfolding is_allowed_redirect has_prefix strip_prefix prefix_allows bytes_beq ends_with
lookalike_refused = refl

is_allowed_redirect_iff_example :
    (is_allowed_redirect test_platform test_browser (str "https://app/x") ≡ true) ↔ (
      IsLocalPath (str "https://app/x")
      ⊎ ((is_web_url (test_platform.parse_url (str "https://app/x")) ≡ true)
          × Any (Covers (str "https://app/x")) test_browser.allowed_redirect_uris))
is_allowed_redirect_iff_example =
    is_allowed_redirect_iff test_platform test_browser (str "https://app/x")

-- A backslash after the slash, which browsers read as a second slash.
backslash_allowed :
    is_allowed_redirect test_platform test_browser (b'/' ∷ 92 ∷ str "evil.org") ≡ true
unfolding is_allowed_redirect has_prefix strip_prefix
backslash_allowed = refl
