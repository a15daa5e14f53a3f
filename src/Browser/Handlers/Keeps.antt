-- ===== src/Browser/Handlers/Keeps.antt =====
-- The handlers of pkg/auth/browser_handlers.go over storages that keep a predicate.
use go_cloud_k8s_auth.Prelude.{Bytes, inl, inr, arith, Option-cases}
use go_cloud_k8s_auth.Prelude.Error.{Result}
use go_cloud_k8s_auth.Prelude.Invert.{Outcome-cases}
use go_cloud_k8s_auth.Prelude.Keeps.{Keeps}
use go_cloud_k8s_auth.Domain.{Time, User, OAuthUserInfo}
use go_cloud_k8s_auth.Platform.{Platform}
use go_cloud_k8s_auth.Storage.{UserStorage, SessionStorage}
use go_cloud_k8s_auth.Storage.Keeps.{UsersKeep, SessionsKeep}
use go_cloud_k8s_auth.StateStore.{validate_and_consume}
use go_cloud_k8s_auth.AuthService.{App, Settings, on_store, admit, authenticate_oauth_user}
use go_cloud_k8s_auth.AuthService.Keeps.{Stored, authenticate-Keeps, issue-Keeps}
use go_cloud_k8s_auth.Browser.{
  BrowserConfig, Request, Page, cookie_value, callback_url, lifetime, or_root,
}
use go_cloud_k8s_auth.Browser.Handlers.{
  current_session, handle_login, handle_oauth_start, handle_oauth_callback, handle_token,
  handle_logout, establish, log_in, mint,
}

-- A page keeps a predicate on the store.
pub record PageKeeps {S : Type 0} (P : S → Type 0) (handler : Page S) : Type 0 where
  pub after : (s : App S) → P s.store → P (handler s).2.store

module _ {S : Type 0} (P : S → Type 0) (pf : Platform) (set : Settings) (store : UserStorage S)
    (sessions : SessionStorage S) (cfg : BrowserConfig) (random : Result Bytes)
    (reads : UsersKeep P store) (keeps : SessionsKeep P random sessions) where
  session-Keeps : (req : Request) → Keeps (Stored P) (current_session pf set store sessions cfg req)
  unfolding current_session
  session-Keeps req = record {
    after = λ s p. elim (Option-cases (cookie_value pf cfg req)) [
      | inl e ↦ ground arith
      | inr (v, e) ↦ ground (arith, (keeps.get_valid v).after s.store p)
    ];
  }

  pub login-PageKeeps : (req : Request) → PageKeeps P (handle_login pf set store sessions cfg req)
  unfolding handle_login
  login-PageKeeps req = record { after = λ s p. ground (arith, (session-Keeps req).after s p) }

  pub start-PageKeeps :
      (now : Time) (req : Request)
      → PageKeeps P (handle_oauth_start pf set store sessions cfg random now req)
  unfolding handle_oauth_start
  start-PageKeeps now req = record { after = λ s p. ground (arith, p) }

  establish-PageKeeps :
      (req : Request) (uri : Bytes) (u : User)
      → PageKeeps P (establish pf set store sessions cfg random req uri u)
  unfolding establish
  establish-PageKeeps req uri u = record {
    after = λ s p.
        ground
          (arith, (keeps.create u.id req.user_agent req.real_ip (lifetime pf cfg)).after s.store p);
  }

  mint-PageKeeps : (u : User) → PageKeeps P (mint pf set store sessions cfg u)
  unfolding mint
  mint-PageKeeps u = record {
    after = λ s p. ground (arith, (issue-Keeps P pf set store reads u).after s.store p);
  }

  pub token-PageKeeps : (req : Request) → PageKeeps P (handle_token pf set store sessions cfg req)
  unfolding handle_token
  token-PageKeeps req = record {
    after = λ s p.
        let k = (session-Keeps req).after s p in
        elim (Option-cases (current_session pf set store sessions cfg req s).0) [
          | inl e ↦ ground arith
          | inr (found, e) ↦
              let t = (current_session pf set store sessions cfg req s).1 in
              let h = (reads.get_by_id found.user_id).after t.store k in
              elim (Outcome-cases (on_store (store.get_by_id found.user_id) t)) [
                | inr (x, t', f) ↦ ground arith
                | inl (u, t', f) ↦ ground (arith, (mint-PageKeeps u).after t')
              ]
        ];
  }

  pub logout-PageKeeps : (req : Request) → PageKeeps P (handle_logout pf set store sessions cfg req)
  unfolding handle_logout
  logout-PageKeeps req = record {
    after = λ s p. elim (Option-cases (cookie_value pf cfg req)) [
      | inl e ↦ ground arith
      | inr (v, e) ↦ ground (arith, (keeps.revoke v).after s.store p)
    ];
  }

  module _ (grants : (info : OAuthUserInfo) → Keeps P (admit pf set store info)) where
    log_in-PageKeeps :
        (req : Request) (uri : Bytes)
        → PageKeeps P (log_in pf set store sessions cfg random req uri)
    unfolding log_in
    log_in-PageKeeps req uri = record {
      after = λ s p.
          let url = callback_url pf cfg req.provider in
          let h =
            (authenticate-Keeps P pf set store reads grants req.provider req.code url).after s.store
              p in
          elim (Outcome-cases
            (on_store (authenticate_oauth_user pf set store req.provider req.code url) s)) [
              | inr (x, t, f) ↦ ground arith
              | inl (u, t, f) ↦ ground (arith, (establish-PageKeeps req uri u).after t)
            ];
    }

    pub callback-PageKeeps :
        (now : Time) (req : Request)
        → PageKeeps P (handle_oauth_callback pf set store sessions cfg random now req)
    unfolding handle_oauth_callback
    callback-PageKeeps now req = record {
      after = λ s p.
          elim (Option-cases (validate_and_consume now req.state req.provider s.states).0) [
            | inl e ↦ ground arith
            | inr (uri, e) ↦ ground (
              arith,
              (log_in-PageKeeps req (or_root uri)).after
                  (record s {
                    states = (validate_and_consume now req.state req.provider s.states).1;
                  })
                  p,
            )
          ];
    }
