-- ===== src/Server/Logout.antt =====
-- A logout at the server of cmd/goCloudAuthServer/goCloudAuthServer.go, over PostgreSQL, and what follows.
use go_cloud_k8s_auth.Prelude.{Bytes, bytes_eq, some, [], ◌≡◌, arith}
use go_cloud_k8s_auth.Domain.{Time}
use go_cloud_k8s_auth.Platform.{Platform}
use go_cloud_k8s_auth.Storage.Db.{Db}
use go_cloud_k8s_auth.Storage.Users.{pgx_users}
use go_cloud_k8s_auth.Storage.Users.Reads.{OnTables}
use go_cloud_k8s_auth.Storage.Sessions.{pgx_sessions, hash_session_token}
use go_cloud_k8s_auth.Storage.Sessions.Closed.{
  Closed, IsOther, Closed-UserRows, Closed-SessionRows, Closed-PatRows, revoke-Closed,
}
use go_cloud_k8s_auth.Storage.Sessions.Keeps.{Draws}
use go_cloud_k8s_auth.Storage.Sessions.Lifetime.{closed-refused}
use go_cloud_k8s_auth.AuthService.{App, Settings}
use go_cloud_k8s_auth.Browser.{BrowserConfig, Request, failed, cookie_value}
use go_cloud_k8s_auth.Browser.Handlers.{handle_token, handle_logout}
use go_cloud_k8s_auth.Browser.Handlers.Sessions.{refused-token}
use go_cloud_k8s_auth.Server.{Codec, Moment}
use go_cloud_k8s_auth.Server.Routes.{Network}
use go_cloud_k8s_auth.Server.Stores.{stores-Keep}
use go_cloud_k8s_auth.Server.Runs.{pgx_wiring, Run, Run-Keeps}

module _ (pf : Platform) (set : Settings) (cfg : BrowserConfig) (codec : Codec) (net : Network)
    (auth_url status_url : Bytes) where
  -- The generator does not draw a token with the hash of this one.
  abbrev pub DrawsOther : Bytes → Moment → Type 0
  DrawsOther v m = Draws pf (IsOther (hash_session_token pf v)) m.random

  logout-Closed :
      (now : Time) (req : Request) (v : Bytes) (s : App Db)
      → cookie_value pf cfg req ≡ some v
      → s.store.faults ≡ []
      → OnTables
          (Closed (hash_session_token pf v))
          (handle_logout pf set (pgx_users pf now) (pgx_sessions pf now) cfg req s).2.store
  unfolding handle_logout
  logout-Closed now req v s c calm = ground (arith, revoke-Closed pf now v s.store calm)

  -- After a logout with a cookie, while the database is reachable, no request with that cookie gets a JWT
  -- again: the token endpoint answers 401, at any time and after any run of the server, whoever its
  -- requests come from and whatever they do, as long as no new session draws a token with the same hash.
  pub logout_is_final :
      (now later : Time) (req next : Request) (v : Bytes) (s t : App Db)
      → cookie_value pf cfg req ≡ some v
      → cookie_value pf cfg next ≡ some v
      → s.store.faults ≡ []
      → Run
          (pgx_wiring pf set cfg codec)
          net
          auth_url
          status_url
          (DrawsOther v)
          (handle_logout pf set (pgx_users pf now) (pgx_sessions pf now) cfg req s).2
          t
      → (handle_token pf set (pgx_users pf later) (pgx_sessions pf later) cfg next t).0 ≡ failed 401
  logout_is_final now later req next v s t c d calm run =
      let hash = hash_session_token pf v in
      let closed =
        Run-Keeps (pgx_wiring pf set cfg codec) net auth_url status_url (DrawsOther v)
          (OnTables (Closed hash))
          (λ m draws.
            stores-Keep pf set cfg codec net auth_url status_url (DrawsOther v) (Closed hash)
              (IsOther hash) (Closed-UserRows hash) (Closed-SessionRows hash) (Closed-PatRows hash)
              m draws)
          run (logout-Closed now req v s c calm) in
      refused-token pf set (pgx_users pf later) cfg later next v t d
        (λ r. closed-refused pf later v t.store r closed)
