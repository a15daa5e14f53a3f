-- ===== src/Server/Runs.antt =====
-- Runs of the server of cmd/goCloudAuthServer/goCloudAuthServer.go: requests in any order, and between
-- them the clean-up of the state store (pkg/auth/state_store.go).
use go_cloud_k8s_auth.Prelude.{Bytes, ◌⊎◌}
use go_cloud_k8s_auth.Prelude.Keeps.{Keeps}
use go_cloud_k8s_auth.Domain.{Time, OAuthUserInfo}
use go_cloud_k8s_auth.Platform.{Platform}
use go_cloud_k8s_auth.Storage.Db.{Db}
use go_cloud_k8s_auth.Storage.Users.{pgx_users}
use go_cloud_k8s_auth.Storage.Sessions.{pgx_sessions}
use go_cloud_k8s_auth.Storage.Pats.{pgx_pats}
use go_cloud_k8s_auth.Storage.Keeps.{UsersKeep, WritesKeep, SessionsKeep, PatsKeep}
use go_cloud_k8s_auth.StateStore.{cleanup}
use go_cloud_k8s_auth.AuthService.{App, Settings, admit}
use go_cloud_k8s_auth.Browser.{BrowserConfig}
use go_cloud_k8s_auth.Server.{Codec, Moment, Wiring}
use go_cloud_k8s_auth.Server.Routes.{Http, Network, serve}
use go_cloud_k8s_auth.Server.Keeps.{IsUnprivileged}
use go_cloud_k8s_auth.Server.Keeps.Requests.{serve-Keeps}

-- The server over PostgreSQL.
abbrev pub pgx_wiring : Platform → Settings → BrowserConfig → Codec → Wiring Db
pgx_wiring pf set cfg codec = record {
  platform = pf;
  settings = set;
  users = pgx_users pf;
  sessions = pgx_sessions pf;
  pats = pgx_pats pf;
  browser = cfg;
  codec = codec;
}

module _ {S : Type 0} (w : Wiring S) (net : Network) (auth_url status_url : Bytes)
    (allowed : Moment → Type 0) where
  -- A request at an allowed moment, or the ticker of the state store.
  pub data Step : App S → App S → Type 0 where
    request :
        {s : App S} (m : Moment) (req : Http)
        → allowed m
        → Step s (serve w net auth_url status_url m req s).1
    tick : {s : App S} (now : Time) → Step s (record s { states = cleanup now s.states })

  pub data Run (s : App S) : App S → Type 0 where
    here : Run s s
    next : {t u : App S} → Run s t → Step t u → Run s u

  -- What the storages keep at a moment.
  pub record StoresKeep (P : S → Type 0) (m : Moment) : Type 0 where
    pub users : UsersKeep P (w.users m.now)
    pub sessions : SessionsKeep P m.random (w.sessions m.now)
    pub pats : PatsKeep P (w.pats m.now)
    pub grants : (info : OAuthUserInfo) → Keeps P (admit w.platform w.settings (w.users m.now) info)
    pub privilege : IsUnprivileged w.platform m.authorization ⊎ WritesKeep P (w.users m.now)

  step-Keeps :
      (P : S → Type 0) {s t : App S}
      → ((m : Moment) → allowed m → StoresKeep P m)
      → Step s t
      → P s.store
      → P t.store
  step-Keeps P k (request {s} m req a) p =
      let h = k m a in
      (serve-Keeps P w m h.users h.pats h.sessions h.grants h.privilege net auth_url status_url
          req).after
        s p
  step-Keeps P k (tick now) p = p

  -- A predicate that the storages keep at every allowed moment holds after every run.
  pub Run-Keeps :
      (P : S → Type 0) {s t : App S}
      → ((m : Moment) → allowed m → StoresKeep P m)
      → Run s t
      → P s.store
      → P t.store
  Run-Keeps P k here p = p
  Run-Keeps P k (next r st) p = step-Keeps P k st (Run-Keeps P k r p)
