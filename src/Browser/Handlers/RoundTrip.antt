-- ===== src/Browser/Handlers/RoundTrip.antt =====
-- From the OAuth callback to the token endpoint of pkg/auth/browser_handlers.go, over PostgreSQL.
use go_cloud_k8s_auth.Prelude.{
  ◌+◌, Bytes, bytes_eq, true, some, [], ◌∷◌, ◌≡◌, refl, ltb, arith, ℕ, List, ◌*◌,
}
use go_cloud_k8s_auth.Prelude.Error.{ok, err}
use go_cloud_k8s_auth.Domain.{Time, User, Session, admin_role}
use go_cloud_k8s_auth.Rbac.{has_role}
use go_cloud_k8s_auth.Platform.{Platform, UserInfo}
use go_cloud_k8s_auth.Storage.Db.{to_micros, Db}
use go_cloud_k8s_auth.Storage.Users.{pgx_users, get_by_id}
use go_cloud_k8s_auth.Storage.Users.Lookup.{get_by_id-found}
use go_cloud_k8s_auth.Storage.Users.Roles.{pgx_users-UserStorageLaws}
use go_cloud_k8s_auth.Storage.Sessions.{pgx_sessions, get_valid}
use go_cloud_k8s_auth.Storage.Sessions
use go_cloud_k8s_auth.Storage.Sessions.Lifetime.{created_valid, create-token}
use go_cloud_k8s_auth.Mappers.{domain_user_to_jwt_user_info}
use go_cloud_k8s_auth.AuthService.{
  App, Settings, authenticate_oauth_user, issue_jwt_for_user, get_group_ids_as_ints,
}
use go_cloud_k8s_auth.AuthService.Issued.{issued-IsTokenOf}
use go_cloud_k8s_auth.AuthService.Login.{authenticated-IsAdmitted}
use go_cloud_k8s_auth.AuthService.Stored.{authenticated-by_id}
use go_cloud_k8s_auth.Browser.{
  BrowserConfig, Request, Response, Cookie, TokenResponse, minted, Page, callback_url, lifetime,
  cookie_value,
}
use go_cloud_k8s_auth.Browser.Handlers.{current_session, handle_oauth_callback, handle_token, mint}
use go_cloud_k8s_auth.Browser.Handlers.Safety.{cookie_means_login}

-- The JWT checker signs all claims.
abbrev pub SignsAll : Platform → Type 0
SignsAll pf = (claims : UserInfo) → (token : Bytes) × (pf.token_from_user_info claims ≡ ok token)

module _ (pf : Platform) (set : Settings) (cfg : BrowserConfig) where
  issued :
      (later : Time) (u : User) (db : Db)
      → SignsAll pf
      → (token : Bytes) × ((issue_jwt_for_user pf set (pgx_users pf later) u db).0 ≡ ok token)
  unfolding issue_jwt_for_user
  issued later u db signs =
      let groups : List ℕ = elim (get_group_ids_as_ints pf set (pgx_users pf later) u db).0 [
        | err _ ↦ []
        | ok ids ↦ ids
      ] in
      let (token, e) = signs (domain_user_to_jwt_user_info u groups) in (token, rw e refl)

  -- The page's answer is a JWT of this user, signed for his claims, and says who he is.
  abbrev pub Mints : User → Page Db → App Db → Type 0
  Mints u page s =
      (m : TokenResponse) × ((page s).0 ≡ minted m)
      × ((groups : List ℕ) × (pf.token_from_user_info (domain_user_to_jwt_user_info u groups)
            ≡ ok m.token))
      × (m.user_id ≡ u.alternate_app_id)
      × (m.email ≡ u.email)
      × (m.name ≡ u.name)
      × (m.avatar_url ≡ u.avatar_url)
      × (m.is_admin ≡ has_role u.roles admin_role)

  mint_succeeds :
      (later : Time) (u : User) (s : App Db)
      → SignsAll pf
      → u.is_active ≡ true
      → Mints u (mint pf set (pgx_users pf later) (pgx_sessions pf later) cfg u) s
  unfolding mint
  mint_succeeds later u s signs active =
      let (token, e) = issued later u s.store signs in
      (
        record {
          token = token;
          expires_in_seconds = pf.jwt_duration * 60;
          user_id = u.alternate_app_id;
          email = u.email;
          name = u.name;
          avatar_url = u.avatar_url;
          is_admin = has_role u.roles admin_role;
        },
        ground arith,
        issued-IsTokenOf pf set (pgx_users pf later) u s.store
            (issue_jwt_for_user pf set (pgx_users pf later) u s.store).1 token (ground arith),
        refl,
        refl,
        refl,
        refl,
        refl,
      )

  token_answered :
      (later : Time) (req : Request) (v : Bytes) (r : Session) (u : User) (s : App Db) (db : Db)
      → SignsAll pf
      → cookie_value pf cfg req ≡ some v
      → get_valid pf later v s.store ≡ (ok r, db)
      → get_by_id pf later r.user_id db ≡ (ok u, db)
      → u.is_active ≡ true
      → Mints u (handle_token pf set (pgx_users pf later) (pgx_sessions pf later) cfg req) s
  unfolding handle_token current_session
  token_answered later req v r u s db signs c g f active =
      let (m, e, k, l₀, l₁, l₂, l₃, l₄) =
        mint_succeeds later u (record s { store = db }) signs active in
      (m, ground arith, k, l₀, l₁, l₂, l₃, l₄)

  -- A callback that sets a cookie logs in: a request with that cookie to the token endpoint, within the
  -- lifetime of the session, is answered with a JWT of the user that the callback authenticated, if
  -- nothing has changed in between, the database is reachable and the JWT checker signs all claims.
  pub cookie_logs_in :
      (now later : Time) (b : ℕ) (bs : Bytes) (req next : Request) (s t : App Db) (r : Response)
      (c : Cookie)
      → SignsAll pf
      → handle_oauth_callback pf set
          (pgx_users pf now)
          (pgx_sessions pf now)
          cfg
          (ok (b ∷ bs))
          now
          req
          s
        ≡ (r, some c, t)
      → t.store.faults ≡ []
      → ltb later (to_micros (now + lifetime pf cfg)) ≡ true
      → next.cookie c.name ≡ some c.value
      → (u : User) × (s₁ : App Db) × (authenticate_oauth_user pf set
            (pgx_users pf now)
            req.provider
            req.code
            (callback_url pf cfg req.provider)
            s.store
          ≡ (ok u, s₁.store))
        × Mints u (handle_token pf set (pgx_users pf later) (pgx_sessions pf later) cfg next) t
  cookie_logs_in now later b bs req next s t r c signs h calm lasts sent =
      let (uri, u, s₁, token, _, _, a, k, same, _) =
        cookie_means_login pf set (pgx_users pf now) (pgx_sessions pf now) cfg (ok (b ∷ bs)) now req
          s t r c h in
      let auth : authenticate_oauth_user pf set (pgx_users pf now) req.provider req.code
            (callback_url pf cfg req.provider) s.store
          ≡ (ok u, s₁.store) =
        ground arith in
      let made : Sessions.create pf now (ok (b ∷ bs)) u.id req.user_agent req.real_ip
            (lifetime pf cfg) s₁.store
          ≡ (ok token, t.store) =
        ground arith in
      let (row, db, g, owner, kept, same_users, quiet) =
        created_valid pf (ok (b ∷ bs)) u.id req.user_agent req.real_ip token (lifetime pf cfg) now
          later s₁.store t.store made calm lasts in
      let nonempty =
        create-token pf b bs u.id req.user_agent req.real_ip token (lifetime pf cfg) now s₁.store
          t.store made in
      let value : cookie_value pf cfg next ≡ some token = ground arith in
      let active =
        (authenticated-IsAdmitted pf set (pgx_users pf now) (pgx_users-UserStorageLaws pf now)
          req.provider req.code (callback_url pf cfg req.provider) s.store s₁.store u auth).0 in
      let found =
        authenticated-by_id pf set now req.provider req.code (callback_url pf cfg req.provider) u
          s.store s₁.store auth in
      let there : get_by_id pf later row.user_id db ≡ (ok u, db) =
        rw owner (get_by_id-found pf later u.id u db (rw same_users found) quiet) in
      (u, s₁, auth, token_answered later next token row u t db signs value g there active)
