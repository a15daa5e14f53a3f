-- ===== src/Program/Login/Accounts.antt =====
-- The form login of cmd/goCloudAuthServer/goCloudAuthServer.go: whose token it issues.
use go_cloud_k8s_auth.Prelude.{
  Bytes, true, some, [], ◌≡◌, ◌≢◌, refl, ◌∙◌, sym, inl, inr, arith, Bool-cases, Option-cases,
}
use go_cloud_k8s_auth.Prelude.Strings.{str, trim_right}
use go_cloud_k8s_auth.Prelude.Error.{ok, err, Result-cases}
use go_cloud_k8s_auth.Platform.{Platform, UserInfo}
use go_cloud_k8s_auth.Program.Login.{
  UserLogin, LoginAnswer, LoginRequest, Authenticator, denied, is_blank, trim_left, credentials,
  login,
}

json_credentials :
    (q : LoginRequest) (v : UserLogin)
    → q.form_value (str "login") ≡ []
    → q.bind ≡ some v
    → credentials q ≡ some v
unfolding credentials is_blank trim_left trim_right
json_credentials q v a b = rw a b

module _ (pf : Platform) (auth : Authenticator) where
  -- The answer with a JWT of the account that the authenticator has under a login.
  abbrev pub answer_for : Bytes → LoginAnswer
  answer_for name = elim (auth.get_user_info_from_login name) [
    | err _ ↦ denied 401
    | ok info ↦ elim (pf.token_from_user_info info) [
      | err _ ↦ denied 401
      | ok token ↦ record { status = 200; token = token }
    ]
  ]

  -- A token is issued only for credentials that the authenticator accepts, and it is the JWT of the
  -- account that the authenticator has for the form's login, which after a login by JSON is not the
  -- name in the credentials.
  pub issued_to_form :
      (req : LoginRequest)
      → (login pf auth req).token ≢ []
      → (u : UserLogin) × (info : UserInfo) × (credentials req ≡ some u)
        × (auth.authenticate_user u.username u.password_hash ≡ true)
        × (auth.get_user_info_from_login (req.form_value (str "login")) ≡ ok info)
        × (pf.token_from_user_info info ≡ ok (login pf auth req).token)
  unfolding login
  issued_to_form req h = elim (Option-cases (credentials req)) [
    | inl e ↦ absurd (h (ground arith))
    | inr (u, e) ↦ elim (Bool-cases (auth.authenticate_user u.username u.password_hash)) [
      | inr f ↦ absurd (h (ground arith))
      | inl f ↦ elim (Result-cases (auth.get_user_info_from_login (req.form_value (str "login")))) [
        | inr (x, g) ↦ absurd (h (ground arith))
        | inl (info, g) ↦ elim (Result-cases (pf.token_from_user_info info)) [
          | inr (x, k) ↦ absurd (h (ground arith))
          | inl (token, k) ↦ (u, info, e, f, g, ground arith)
        ]
      ]
    ]
  ]

  -- Two logins by JSON without a form, whose credentials differ and are both accepted, get the same
  -- answer, which is that for the account under the empty login.
  pub json_logins_conflated :
      (r r' : LoginRequest) (u u' : UserLogin)
      → r.form_value (str "login") ≡ []
      → r'.form_value (str "login") ≡ []
      → r.bind ≡ some u
      → r'.bind ≡ some u'
      → auth.authenticate_user u.username u.password_hash ≡ true
      → auth.authenticate_user u'.username u'.password_hash ≡ true
      → (login pf auth r ≡ login pf auth r') × (login pf auth r ≡ answer_for [])
  unfolding login credentials is_blank
  json_logins_conflated r r' u u' e e' f f' g g' =
      (by_empty r u e f g ∙ sym (by_empty r' u' e' f' g'), by_empty r u e f g)
    where
      by_empty :
          (q : LoginRequest) (v : UserLogin)
          → q.form_value (str "login") ≡ []
          → q.bind ≡ some v
          → auth.authenticate_user v.username v.password_hash ≡ true
          → login pf auth q ≡ answer_for []
      by_empty q v a b c = rw (json_credentials q v a b, c, a, login) refl
