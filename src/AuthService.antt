-- ===== src/AuthService.antt =====
-- pkg/auth/auth_service.go: `AuthBusinessService`, over any user storage. Its state is that of the
-- storage and the state store.
pub mod AdminEmails
pub mod Login
pub mod Stored
pub mod Unset
pub mod Completion
pub mod Issued
pub mod Tokens
pub mod Keeps
mod Tests
use go_cloud_k8s_auth.Prelude.{
  ℕ, ◌+◌, ◌*◌, Bytes, ◌==◌, bytes_eq, Bool, true, false, not, Option, none, some, List, [], ◌∷◌,
  map, if◌then◌else◌, any, drop,
}
use go_cloud_k8s_auth.Prelude.Int.{ℤ}
use go_cloud_k8s_auth.Prelude.Strings.{str, is_empty, split}
use go_cloud_k8s_auth.Prelude.Error.{
  Error, Result, ok, err, Action, sentinel, wrap, provider_error, invalid_state, user_disabled,
  user_not_found, pure, raise, lift, map_err, ◌>>=◌, ◌>>◌,
}
use go_cloud_k8s_auth.Domain.{Uuid, Time, User, OAuthUserInfo, admin_role}
use go_cloud_k8s_auth.Platform.{Platform, OauthConfig, UserInfo}
use go_cloud_k8s_auth.Storage.{UserStorage}
use go_cloud_k8s_auth.StateStore.{StateStore, generate, validate}
use go_cloud_k8s_auth.Mappers.{domain_user_to_jwt_user_info}
use go_cloud_k8s_auth.OauthProviders.{user_info_fetcher}

-- The configured fields of the service: `OAuthConfigs` and `BootstrapAdminEmails`.
pub record Settings : Type 0 where
  pub oauth_configs : List (Bytes × OauthConfig)
  pub bootstrap_admin_emails : List Bytes

-- What the requests read and write.
pub record App (S : Type 0) : Type 0 where
  pub states : StateStore
  pub store : S

abbrev pub on_store : {S A : Type 0} → Action S A → Action (App S) A
on_store m s = let (r, t) = m s.store in (r, record s { store = t })

-- Membership in a Go set, `_, ok := set[key]`.
abbrev pub member : Bytes → List Bytes → Bool
member key set = any (λ k. k == key) set

-- `emails[email] = struct{}{}` unless the e-mail is blank.
add_email : Platform → Bytes → List Bytes → List Bytes
add_email pf part emails =
    let email = pf.to_lower (pf.trim_space part) in
    if is_empty email then emails else if member email emails then emails else email ∷ emails

parse_parts : Platform → List Bytes → List Bytes → List Bytes
parse_parts pf [] emails = emails
parse_parts pf (part ∷ parts) emails = parse_parts pf parts (add_email pf part emails)

unfoldable pub parse_admin_emails : Platform → Bytes → List Bytes
unfolding parse_parts add_email
parse_admin_emails pf raw = parse_parts pf (split b',' raw) []

-- `s.OAuthConfigs[provider]`
unfoldable pub config_of : Bytes → List (Bytes × OauthConfig) → Option OauthConfig
config_of provider [] = none
config_of provider ((name, cfg) ∷ cfgs) =
    if name == provider then some cfg else config_of provider cfgs

abbrev pub get_available_providers : Settings → List Bytes
get_available_providers cfg = map (λ c. c.0) cfg.oauth_configs

abbrev pub with_redirect : Bytes → OauthConfig → OauthConfig
with_redirect url cfg = if is_empty url then cfg else record cfg { redirect_url = url }

-- The last four bytes of a UUID as a number; the `|` of the Go code joins disjoint bytes.
unfoldable pub group_id_as_int : Uuid → ℕ
group_id_as_int gid = elim (drop 12 gid) [
  | a ∷ b ∷ c ∷ d ∷ _ ↦ a * 16777216 + b * 65536 + c * 256 + d
  | _ ↦ 0
]

module _ {S : Type 0} (pf : Platform) (cfg : Settings) (store : UserStorage S) where
  unfoldable pub ensure_bootstrap_admin : User → Action S User
  ensure_bootstrap_admin user =
      if not (member (pf.to_lower user.email) cfg.bootstrap_admin_emails) then pure user else do
        updated ← map_err wrap (store.add_role user.id admin_role)
        pure (elim updated [ none ↦ user | some u ↦ u ])

  -- The lookups in `OAuthConfigs` and `UserInfoFetcher`, the exchange and the profile.
  fetch_profile : Bytes → Bytes → Bytes → Result OAuthUserInfo
  fetch_profile provider code redirect_url = elim (config_of provider cfg.oauth_configs) [
    | none ↦ err (wrap (sentinel provider_error))
    | some c ↦ elim (pf.exchange (with_redirect redirect_url c) code) [
      | err _ ↦ err (wrap (sentinel provider_error))
      | ok token ↦ elim (user_info_fetcher pf provider) [
        | none ↦ err (wrap (sentinel provider_error))
        | some fetch ↦ elim (fetch token) [
          | err _ ↦ err (wrap (sentinel provider_error))
          | ok info ↦ if is_empty info.email then err (wrap (sentinel provider_error)) else ok info
        ]
      ]
    ]
  ]

  -- From the upsert on.
  unfoldable pub admit : OAuthUserInfo → Action S User
  admit info = do
    user ← map_err wrap (store.upsert_by_provider info)
    if not user.is_active then raise (sentinel user_disabled) else ensure_bootstrap_admin user

  unfoldable pub authenticate_oauth_user : Bytes → Bytes → Bytes → Action S User
  unfolding fetch_profile admit
  authenticate_oauth_user provider code redirect_url = do
    info ← lift (fetch_profile provider code redirect_url)
    admit info

  unfoldable pub get_group_ids_as_ints : User → Action S (List ℕ)
  get_group_ids_as_ints user = do
    group_uuids ← store.get_user_group_ids user.id
    pure (map group_id_as_int group_uuids)

  unfoldable pub issue_jwt_for_user : User → Action S Bytes
  unfolding get_group_ids_as_ints
  issue_jwt_for_user user s =
      let (r, t) = get_group_ids_as_ints user s in
      let group_ids : List ℕ = elim r [ err _ ↦ [] | ok ids ↦ ids ] in
      (
        elim (pf.token_from_user_info (domain_user_to_jwt_user_info user group_ids)) [
          | err e ↦ err (wrap e)
          | ok token ↦ ok token
        ],
        t,
      )

  -- A flag and, where it is set, the user.
  unfoldable pub validate_token : Bytes → Action S (Bool × Option User)
  validate_token token s = elim (pf.parse_token token) [
    | err _ ↦ (ok (false, none), s)
    | ok claims ↦
        let (r, t) = store.get_by_alternate_app_id claims.user_id s in
        elim r [
          | err e ↦ (err (wrap e), t)
          | ok user ↦
              if not user.is_active then (ok (false, none), t) else (ok (true, some user), t)
        ]
  ]

  unfoldable pub get_current_user : ℤ → Action S User
  get_current_user app_id =
      map_err (λ _. wrap (sentinel user_not_found)) (store.get_by_alternate_app_id app_id)

  -- The URL and the state.
  unfoldable pub start_oauth : Result Bytes → Time → Bytes → Bytes → Action (App S) (Bytes × Bytes)
  start_oauth random now provider redirect_url s = elim (config_of provider cfg.oauth_configs) [
    | none ↦ (err (wrap (sentinel provider_error)), s)
    | some c ↦
        let (r, t) = generate random now provider s.states in
        elim r [
          | err e ↦ (err (wrap e), record s { states = t })
          | ok state ↦ (
            ok (pf.auth_code_url (with_redirect redirect_url c) state, state),
            record s { states = t },
          )
        ]
  ]

  -- `if !s.StateStore.Validate(state, provider)`
  check_state : Time → Bytes → Bytes → Action (App S) (Unit {0})
  check_state now state provider s =
      let (valid, t) = validate now state provider s.states in
      (if valid then ok tt else err (sentinel invalid_state), record s { states = t })

  -- The JWT and the user.
  unfoldable pub handle_callback : Time → Bytes → Bytes → Bytes → Action (App S) (Bytes × User)
  unfolding check_state
  handle_callback now provider code state = do
    check_state now state provider
    user ← on_store (authenticate_oauth_user provider code [])
    token ← on_store (issue_jwt_for_user user)
    pure (token, user)
