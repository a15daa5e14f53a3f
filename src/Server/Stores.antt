-- ===== src/Server/Stores.antt =====
-- The server of cmd/goCloudAuthServer/goCloudAuthServer.go over PostgreSQL, and a predicate on the tables
-- that no statement breaks.
use go_cloud_k8s_auth.Prelude.{Bytes, List, inr}
use go_cloud_k8s_auth.Domain.{User, Session, PersonalAccessToken, admin_role}
use go_cloud_k8s_auth.Platform.{Platform}
use go_cloud_k8s_auth.Storage.Users.{pgx_users}
use go_cloud_k8s_auth.Storage.Users.Reads.{OnTables}
use go_cloud_k8s_auth.Storage.Users.Writes.{
  UserRows, pgx_users-Keep, pgx_users-WritesKeep, add_role-Keeps,
}
use go_cloud_k8s_auth.Storage.Sessions.Keeps.{SessionRows, Draws, pgx_sessions-Keep}
use go_cloud_k8s_auth.Storage.Pats.Keeps.{PatRows, pgx_pats-Keep}
use go_cloud_k8s_auth.AuthService.{Settings}
use go_cloud_k8s_auth.AuthService.Keeps.{admit-Keeps, granting-Keeps}
use go_cloud_k8s_auth.Browser.{BrowserConfig}
use go_cloud_k8s_auth.Server.{Codec, Moment}
use go_cloud_k8s_auth.Server.Routes.{Network}
use go_cloud_k8s_auth.Server.Runs.{pgx_wiring, StoresKeep}

module _ (pf : Platform) (set : Settings) (cfg : BrowserConfig) (codec : Codec) (net : Network)
    (auth_url status_url : Bytes) (allowed : Moment → Type 0) where
  -- Whoever asks, if the moment's generator draws a fresh hash.
  pub stores-Keep :
      (Q : List User → List Session → List PersonalAccessToken → Type 0) (Fresh : Bytes → Type 0)
      → UserRows Q
      → SessionRows Q Fresh
      → PatRows Q
      → (m : Moment) → Draws pf Fresh m.random
      → StoresKeep (pgx_wiring pf set cfg codec) net auth_url status_url allowed (OnTables Q) m
  stores-Keep Q Fresh users sessions pats m draws = record {
    users = pgx_users-Keep Q users pf m.now;
    sessions = pgx_sessions-Keep Q Fresh sessions pf m.now m.random draws;
    pats = pgx_pats-Keep Q pats pf m.now;
    grants = λ info.
        admit-Keeps (OnTables Q) pf set (pgx_users pf m.now) (pgx_users-Keep Q users pf m.now) info
          (granting-Keeps (OnTables Q) pf set (pgx_users pf m.now) (pgx_users-Keep Q users pf m.now)
            (λ u. add_role-Keeps Q users pf m.now u.id admin_role));
    privilege = inr (pgx_users-WritesKeep Q users pf m.now);
  }
