-- ===== src/Browser/Handlers/Sessions.antt =====
-- The token endpoint of pkg/auth/browser_handlers.go without a valid session, over the PostgreSQL
-- session store.
use go_cloud_k8s_auth.Prelude.{Bytes, bytes_eq, some, ◌≡◌, ◌≢◌, inl, inr, arith}
use go_cloud_k8s_auth.Prelude.Error.{ok}
use go_cloud_k8s_auth.Prelude.Invert.{Outcome-cases}
use go_cloud_k8s_auth.Domain.{Time, Session}
use go_cloud_k8s_auth.Platform.{Platform}
use go_cloud_k8s_auth.Storage.{UserStorage}
use go_cloud_k8s_auth.Storage.Db.{Db}
use go_cloud_k8s_auth.Storage.Sessions.{pgx_sessions, get_valid}
use go_cloud_k8s_auth.AuthService.{App, Settings}
use go_cloud_k8s_auth.Browser.{BrowserConfig, Request, failed, cookie_value}
use go_cloud_k8s_auth.Browser.Handlers.{current_session, handle_token}

module _ (pf : Platform) (set : Settings) (store : UserStorage Db) (cfg : BrowserConfig) where
  -- A request whose cookie is the token of no valid session.
  pub refused-token :
      (now : Time) (req : Request) (v : Bytes) (s : App Db)
      → cookie_value pf cfg req ≡ some v
      → ((r : Session) → (get_valid pf now v s.store).0 ≢ ok r)
      → (handle_token pf set store (pgx_sessions pf now) cfg req s).0 ≡ failed 401
  unfolding handle_token current_session
  refused-token now req v s c h = elim (Outcome-cases (get_valid pf now v s.store)) [
    | inl (r, t, e) ↦
        let wrong : (get_valid pf now v s.store).0 ≡ ok r = ground arith in
        ground (arith, h r wrong)
    | inr (x, t, e) ↦ ground arith
  ]
