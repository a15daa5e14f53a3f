-- ===== src/Server/Safety.antt =====
-- The server over PostgreSQL (`main` of cmd/goCloudAuthServer/goCloudAuthServer.go): what holds of the
-- tables of users, sessions and tokens after every run.
use go_cloud_k8s_auth.Prelude.{Bytes, false, [], List, ◌≡◌, inl, inr, bytes_eq, All, refl}
use go_cloud_k8s_auth.Domain.{User, admin_role}
use go_cloud_k8s_auth.Platform.{Platform}
use go_cloud_k8s_auth.Storage.Db.{Db}
use go_cloud_k8s_auth.Storage.Users.{pgx_users}
use go_cloud_k8s_auth.Storage.Users.Rows.{UniqueUsers, Uniquely, unique_users, unique_writes}
use go_cloud_k8s_auth.Storage.Users.Rows
use go_cloud_k8s_auth.Storage.Users.Admins.{
  IsNoNewAdmin, NoNewAdmins, NoNewAdmins-self, admins_users, UsersOnly-SessionRows,
  UsersOnly-PatRows,
}
use go_cloud_k8s_auth.Storage.Users.Reads.{OnTables}
use go_cloud_k8s_auth.Storage.Owned.{
  OwnedRows, Owned-UserRows, Owned, Owned-SessionRows, Owned-PatRows,
}
use go_cloud_k8s_auth.Storage.Sessions.Keeps.{pgx_sessions-Keep}
use go_cloud_k8s_auth.Storage.Pats.Keeps.{pgx_pats-Keep}
use go_cloud_k8s_auth.AuthService.{App, Settings, member}
use go_cloud_k8s_auth.AuthService.Keeps.{admit-Keeps, granting-Keeps, unlisted-Keeps}
use go_cloud_k8s_auth.Browser.{BrowserConfig}
use go_cloud_k8s_auth.Server.{Codec, Moment}
use go_cloud_k8s_auth.Server.Routes.{Network}
use go_cloud_k8s_auth.Server.Keeps.{IsUnprivileged}
use go_cloud_k8s_auth.Server.Stores.{stores-Keep}
use go_cloud_k8s_auth.Server.Runs.{pgx_wiring, Run, StoresKeep, Run-Keeps}

module _ (pf : Platform) (set : Settings) (cfg : BrowserConfig) (codec : Codec) (net : Network)
    (auth_url status_url : Bytes) where
  -- Any request, at any time and with any credentials.
  abbrev pub Anyone : Moment → Type 0
  Anyone m = Unit {0}

  -- A request without the JWT of an administrator.
  abbrev pub Unprivileged : Moment → Type 0
  Unprivileged m = IsUnprivileged pf m.authorization

  unique_stores :
      (m : Moment)
      → StoresKeep (pgx_wiring pf set cfg codec) net auth_url status_url Anyone UniqueUsers m
  unique_stores m = record {
    users = unique_users pf m.now;
    sessions = pgx_sessions-Keep Uniquely _ (UsersOnly-SessionRows _) pf m.now m.random (λ _ _. tt);
    pats = pgx_pats-Keep Uniquely (UsersOnly-PatRows _) pf m.now;
    grants = λ info.
        admit-Keeps UniqueUsers pf set (pgx_users pf m.now) (unique_users pf m.now) info (
          granting-Keeps UniqueUsers pf set (pgx_users pf m.now) (unique_users pf m.now)
            (λ u. Rows.add_role-Keeps pf m.now u.id admin_role));
    privilege = inr (unique_writes pf m.now);
  }

  -- After any run of requests of whatever origin, with clean-ups of the state store between them, no two
  -- users share an id, an integer id, an e-mail or an OAuth identity if none did before, even
  -- where queries fail.
  pub Run-UniqueUsers :
      {s t : App Db}
      → Run (pgx_wiring pf set cfg codec) net auth_url status_url Anyone s t
      → UniqueUsers s.store
      → UniqueUsers t.store
  Run-UniqueUsers r =
      Run-Keeps (pgx_wiring pf set cfg codec) net auth_url status_url Anyone UniqueUsers
        (λ m _. unique_stores m) r

  -- After any run of requests of whatever origin, every session and every personal access token belongs
  -- to a user of the table if it did before.
  pub Run-OwnedRows :
      {s t : App Db}
      → Run (pgx_wiring pf set cfg codec) net auth_url status_url Anyone s t
      → OwnedRows s.store
      → OwnedRows t.store
  Run-OwnedRows r =
      Run-Keeps (pgx_wiring pf set cfg codec) net auth_url status_url Anyone OwnedRows
        (λ m _.
          stores-Keep pf set cfg codec net auth_url status_url Anyone Owned _ Owned-UserRows
            Owned-SessionRows Owned-PatRows m (λ _ _. tt))
        r

  module _ (before : List User) (unlisted : set.bootstrap_admin_emails ≡ []) where
    none_listed : (email : Bytes) → member email set.bootstrap_admin_emails ≡ false
    none_listed email = rw unlisted refl

    admins_stores :
        (m : Moment)
        → Unprivileged m
        → StoresKeep
            (pgx_wiring pf set cfg codec)
            net
            auth_url
            status_url
            Unprivileged
            (OnTables (NoNewAdmins before))
            m
    admins_stores m u = record {
      users = admins_users before pf m.now;
      sessions =
          pgx_sessions-Keep (NoNewAdmins before) _ (UsersOnly-SessionRows _) pf m.now m.random
            (λ _ _. tt);
      pats = pgx_pats-Keep (NoNewAdmins before) (UsersOnly-PatRows _) pf m.now;
      grants = λ info.
          admit-Keeps (OnTables (NoNewAdmins before)) pf set (pgx_users pf m.now)
            (admins_users before pf m.now) info
            (unlisted-Keeps (OnTables (NoNewAdmins before)) pf set (pgx_users pf m.now)
              (admins_users before pf m.now) none_listed);
      privilege = inl u;
    }

  -- In a server without bootstrap administrators, whatever requests arrive without the JWT of an
  -- administrator, the administrators after the run are users who were administrators before it.
  pub Run-IsNoNewAdmin :
      {s t : App Db}
      → set.bootstrap_admin_emails ≡ []
      → Run (pgx_wiring pf set cfg codec) net auth_url status_url Unprivileged s t
      → All (IsNoNewAdmin s.store.users) t.store.users
  Run-IsNoNewAdmin {s} unlisted r =
      Run-Keeps (pgx_wiring pf set cfg codec) net auth_url status_url Unprivileged
        (OnTables (NoNewAdmins s.store.users)) (admins_stores s.store.users unlisted) r
        (NoNewAdmins-self s.store.users s.store.users (λ id h. h))
