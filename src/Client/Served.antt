-- ===== src/Client/Served.antt =====
-- The example client (cmd/exampleClient/main.go) and the interceptor of the server.
use go_cloud_k8s_auth.Prelude.{
  Bytes, bytes_beq, true, false, ◌++◌, ◌≡◌, refl, inl, inr, arith, ◌==◌, bytes_eq, if◌then◌else◌,
  subst, some, Bool-cases, ◌∙◌,
}
use go_cloud_k8s_auth.Prelude.Int.{to_int32}
use go_cloud_k8s_auth.Prelude.Strings.{str, is_empty, has_prefix, strip_prefix}
use go_cloud_k8s_auth.Prelude.Error.{ok}
use go_cloud_k8s_auth.Platform.{UserInfo}
use go_cloud_k8s_auth.Connect.{background, reply, is_public, intercept, with_claims}
use go_cloud_k8s_auth.Connect.Interceptor.{bearer-intercept}
use go_cloud_k8s_auth.Server.{
  Moment, Wiring, auth_service_start_oauth_procedure, auth_service_validate_token_procedure,
  auth_service_get_current_user_procedure, user_service_list_procedure,
}
use go_cloud_k8s_auth.Server.Services.{Case, switch}
use go_cloud_k8s_auth.Server.Routes.{Network, cases_of}
use go_cloud_k8s_auth.Client.{
  token_required, Flags, Message, sends, validate, current_user, list_users, authorization, run,
}

-- The server has a handler for the procedure, and what the handler sees is the caller of the token or,
-- for a public procedure, nobody.
module _ {S : Type 0} (w : Wiring S) (net : Network) (m : Moment) (claims : UserInfo) where
  abbrev pub IsServed : Bytes → Bytes → Type 0
  IsServed procedure auth =
      ((c : Case S) × (switch procedure (cases_of w net m procedure) ≡ some c))
      × (intercept w.platform procedure auth background ≡ (
          if is_public procedure then reply background else reply (with_claims claims background)))

  public_served :
      (procedure auth : Bytes)
      → is_public procedure ≡ true
      → intercept w.platform procedure auth background
        ≡ (if is_public procedure then reply background else reply (with_claims claims background))
  unfolding intercept
  public_served procedure auth e = ground arith

  private_served :
      (procedure token : Bytes)
      → is_public procedure ≡ false
      → w.platform.parse_token token ≡ ok claims
      → intercept w.platform procedure (str "Bearer " ++ token) background
        ≡ (if is_public procedure then reply background else reply (with_claims claims background))
  private_served procedure token e h =
      bearer-intercept w.platform procedure background token e ∙ rw (h, e) refl

  start-IsServed : (auth : Bytes) → IsServed auth_service_start_oauth_procedure auth
  unfolding switch has_prefix strip_prefix bytes_beq is_public
  start-IsServed auth = ((_, refl), public_served auth_service_start_oauth_procedure auth refl)

  validate-IsServed : (auth : Bytes) → IsServed auth_service_validate_token_procedure auth
  unfolding switch has_prefix strip_prefix bytes_beq is_public
  validate-IsServed auth =
      ((_, refl), public_served auth_service_validate_token_procedure auth refl)

  current-IsServed :
      (token : Bytes)
      → w.platform.parse_token token ≡ ok claims
      → IsServed auth_service_get_current_user_procedure (str "Bearer " ++ token)
  unfolding switch has_prefix strip_prefix bytes_beq is_public
  current-IsServed token h =
      ((_, refl), private_served auth_service_get_current_user_procedure token refl h)

  list-IsServed :
      (token : Bytes)
      → w.platform.parse_token token ≡ ok claims
      → IsServed user_service_list_procedure (str "Bearer " ++ token)
  unfolding switch has_prefix strip_prefix bytes_beq is_public
  list-IsServed token h = ((_, refl), private_served user_service_list_procedure token refl h)

  checked :
      (f : Flags) (procedure : Bytes) (message : Message)
      → ((token : Bytes)
          → w.platform.parse_token token ≡ ok claims
          → IsServed procedure (str "Bearer " ++ token))
      → {p h : Bytes} {msg : Message} → w.platform.parse_token f.token ≡ ok claims
      → (if is_empty f.token
          then token_required
          else sends procedure (authorization f.token) message)
        ≡ sends p h msg
      → IsServed p h
  unfolding authorization
  checked f procedure message served {p} {h} accepted e = elim (Bool-cases (is_empty f.token)) [
    | inl empty ↦ ground arith
    | inr full ↦
        let same : (procedure ≡ p) × (str "Bearer " ++ f.token ≡ h) = ground arith in
        subst (λ x. IsServed x h) same.0
          (subst (IsServed procedure) same.1 (served f.token accepted))
  ]

  -- Whatever command the client sends, with a token that the server's JWT checker accepts, the server has
  -- a handler for its procedure, and the header passes the interceptor with the token's user as the
  -- caller, or with nobody for the two public procedures.
  pub sent-IsServed :
      (f : Flags) {p h : Bytes} {msg : Message}
      → w.platform.parse_token f.token ≡ ok claims
      → run f ≡ sends p h msg
      → IsServed p h
  unfolding run
  sent-IsServed f {p} {h} {msg} accepted e = elim (Bool-cases (f.cmd == str "start-oauth")) [
    | inl a ↦
        let same : auth_service_start_oauth_procedure ≡ p = ground arith in
        subst (λ x. IsServed x h) same (start-IsServed h)
    | inr a ↦ elim (Bool-cases (f.cmd == str "validate")) [
      | inl b ↦
          checked f auth_service_validate_token_procedure (validate f.token)
            (λ token _. validate-IsServed (str "Bearer " ++ token)) {p = p} {h = h} {msg = msg}
            accepted (ground arith)
      | inr b ↦ elim (Bool-cases (f.cmd == str "current-user")) [
        | inl c ↦
            checked f auth_service_get_current_user_procedure current_user current-IsServed {p = p}
              {h = h} {msg = msg} accepted (ground arith)
        | inr c ↦ elim (Bool-cases (f.cmd == str "list-users")) [
          | inl d ↦
              checked f user_service_list_procedure
                (list_users (to_int32 f.limit) (to_int32 f.offset)) list-IsServed {p = p} {h = h}
                {msg = msg} accepted (ground arith)
          | inr d ↦ ground arith
        ]
      ]
    ]
  ]
