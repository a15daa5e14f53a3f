-- ===== src/OauthProviders/Verified.antt =====
-- pkg/auth/oauth_providers.go: the answers behind the flag `EmailVerified`.
use go_cloud_k8s_auth.Prelude.{
  Bytes, ◌==◌, bytes_eq, bytes_beq_iff, bytes_cases, sym, Bool, true, false, ◌&&◌, ◌||◌, none, some,
  List, [], ◌∷◌, ◌≡◌, refl, subst, arith, any, inl, inr, ◌⊎◌, Bool-cases, Option-cases,
}
use go_cloud_k8s_auth.Prelude.Strings.{str, is_empty}
use go_cloud_k8s_auth.Prelude.Error.{Result, ok, Result-cases}
use go_cloud_k8s_auth.Domain.{OAuthUserInfo}
use go_cloud_k8s_auth.Platform.{Platform, GithubEmail, GoogleProfile}
use go_cloud_k8s_auth.OauthProviders.{
  find_public, find_primary, find_verified, first_email, pick_git_hub_email, emails_or_none,
  fetch_git_hub_user_info, fetch_google_user_info, fetch_microsoft_user_info, user_info_fetcher,
}

module _ (pf : Platform) where
  -- The provider's list has this address, up to case, as a verified one.
  abbrev pub lists : List GithubEmail → Bytes → Bool
  lists emails address =
      any (λ e. e.verified && (pf.equal_fold e.email address || e.email == address)) emails

  public-listed :
      (public : Bytes) (emails : List GithubEmail)
      → (find_public pf public emails).1 ≡ true
      → lists emails (find_public pf public emails).0 ≡ true
  unfolding find_public
  public-listed public [] h = ground arith
  public-listed public (e ∷ emails) h = ground (arith, public-listed public emails)

  primary-listed :
      (emails : List GithubEmail) (a : Bytes)
      → find_primary pf emails ≡ some (a, true)
      → lists emails a ≡ true
  unfolding find_primary
  primary-listed [] a h = ground arith
  primary-listed (e ∷ emails) a h = ground (arith, primary-listed emails a, bytes_beq_iff e.email a)

  verified-listed :
      (emails : List GithubEmail) (a : Bytes) (v : Bool)
      → find_verified pf emails ≡ some (a, v)
      → lists emails a ≡ true
  unfolding find_verified
  verified-listed [] a v h = ground arith
  verified-listed (e ∷ emails) a v h =
      ground (arith, verified-listed emails a v, bytes_beq_iff e.email a)

  first-unverified : (emails : List GithubEmail) → (first_email pf emails).1 ≡ false
  unfolding first_email
  first-unverified [] = refl
  first-unverified (e ∷ emails) = refl

  -- GitHub: an address that is picked as verified is, up to case, one that GitHub lists as verified.
  pub picked-listed :
      (public : Bytes) (emails : List GithubEmail)
      → (pick_git_hub_email pf public emails).1 ≡ true
      → lists emails (pick_git_hub_email pf public emails).0 ≡ true
  unfolding pick_git_hub_email
  picked-listed public emails h = elim (Bool-cases (is_empty public)) [
    | inr named ↦ ground (arith, public-listed public emails)
    | inl hidden ↦ elim (Option-cases (find_primary pf emails)) [
      | inr ((a, v), e) ↦
          let sure : v ≡ true = ground arith in
          let k : find_primary pf emails ≡ some (a, true) =
            subst (λ w. find_primary pf emails ≡ some (a, w)) sure e in
          ground (arith, primary-listed emails a k)
      | inl e ↦ elim (Option-cases (find_verified pf emails)) [
        | inr ((a, v), f) ↦ ground (arith, verified-listed emails a v f)
        | inl f ↦ ground (arith, first-unverified emails)
      ]
    ]
  ]

  -- Google's answer has this address, flagged as verified.
  abbrev pub GoogleVouches : Bytes → OAuthUserInfo → Type 0
  GoogleVouches token info =
      (p : GoogleProfile) × (pf.google_profile token ≡ ok p)
      × (p.email ≡ info.email)
      × (p.verified_email ≡ true)

  -- GitHub's list of the account's addresses has this one as verified.
  abbrev pub GithubVouches : Bytes → OAuthUserInfo → Type 0
  GithubVouches token info =
      (emails : List GithubEmail) × (pf.github_emails token ≡ ok emails)
      × (lists emails info.email ≡ true)

  -- What must have been answered for the provider's e-mail to be taken as verified.
  abbrev pub IsVouched : Bytes → Bytes → OAuthUserInfo → Type 0
  IsVouched provider token info =
      ((provider ≡ str "google") × GoogleVouches token info)
      ⊎ ((provider ≡ str "github") × GithubVouches token info)

  google-vouched :
      (token : Bytes) (info : OAuthUserInfo)
      → fetch_google_user_info pf token ≡ ok info
      → info.email_verified ≡ true
      → GoogleVouches token info
  unfolding fetch_google_user_info
  google-vouched token info h v = elim (Result-cases (pf.google_profile token)) [
    | inl (p, e) ↦ (p, e, ground arith, ground arith)
    | inr (x, e) ↦ ground arith
  ]

  github-vouched :
      (token : Bytes) (info : OAuthUserInfo)
      → fetch_git_hub_user_info pf token ≡ ok info
      → info.email_verified ≡ true
      → GithubVouches token info
  unfolding fetch_git_hub_user_info emails_or_none
  github-vouched token info h v = elim (Result-cases (pf.github_profile token)) [
    | inr (x, e) ↦ ground arith
    | inl (p, e) ↦ elim (Result-cases (pf.github_emails token)) [
      | inl (emails, f) ↦ (emails, f, ground (arith, picked-listed p.email emails))
      | inr (x, f) ↦
          let sure : (pick_git_hub_email pf p.email []).1 ≡ true = ground arith in
          ground (arith, picked-listed p.email [] sure)
    ]
  ]

  microsoft-unverified :
      (token : Bytes) (info : OAuthUserInfo)
      → fetch_microsoft_user_info pf token ≡ ok info
      → info.email_verified ≡ false
  unfolding fetch_microsoft_user_info
  microsoft-unverified token info h = ground arith

  -- An e-mail that a provider's fetcher reports as verified was vouched for: by Google's own flag on
  -- that address, or by GitHub's list of the account's addresses. Microsoft never vouches for one.
  pub verified-IsVouched :
      (provider token : Bytes) (fetch : Bytes → Result OAuthUserInfo) (info : OAuthUserInfo)
      → user_info_fetcher pf provider ≡ some fetch
      → fetch token ≡ ok info
      → info.email_verified ≡ true
      → IsVouched provider token info
  unfolding user_info_fetcher
  verified-IsVouched provider token fetch info f h v = elim (bytes_cases provider (str "google")) [
    | inl (g, google) ↦
        inl
          (google, google-vouched token info (fetched (fetch_google_user_info pf) (ground arith)) v)
    | inr (g, _) ↦ elim (bytes_cases provider (str "github")) [
      | inl (k, github) ↦ inr (
        github,
        github-vouched token info (fetched (fetch_git_hub_user_info pf) (ground arith)) v,
      )
      | inr (k, _) ↦ elim (bytes_cases provider (str "microsoft")) [
        | inl (m, _) ↦ ground (
          arith,
          microsoft-unverified token info (fetched (fetch_microsoft_user_info pf) (ground arith)),
        )
        | inr (m, _) ↦ ground arith
      ]
    ]
  ]
    where
      fetched :
          (known : Bytes → Result OAuthUserInfo) → some known ≡ some fetch → known token ≡ ok info
      fetched known e =
          subst (λ o. elim o [ none ↦ Unit {0} | some k ↦ k token ≡ ok info ]) (sym e) h
