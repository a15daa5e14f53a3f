-- ===== src/Server/Keeps.antt =====
-- The server of cmd/goCloudAuthServer/goCloudAuthServer.go over storages that keep a predicate: what
-- each procedure, each page and so each request keeps.
pub mod Requests
use go_cloud_k8s_auth.Prelude.{
  Bytes, false, Option, some, List, [], ◌∷◌, ◌≡◌, ◌⊎◌, inl, inr, ◌++◌, arith, ◌==◌, bytes_eq, subst,
  Bool-cases, Option-cases, All,
}
use go_cloud_k8s_auth.Prelude.Strings.{str, has_prefix, strip_prefix}
use go_cloud_k8s_auth.Prelude.Error.{ok}
use go_cloud_k8s_auth.Prelude.Keeps.{Keeps}
use go_cloud_k8s_auth.Domain.{OAuthUserInfo}
use go_cloud_k8s_auth.Platform.{Platform, UserInfo}
use go_cloud_k8s_auth.Storage.Keeps.{UsersKeep, WritesKeep, SessionsKeep, PatsKeep}
use go_cloud_k8s_auth.AuthService.{App, admit}
use go_cloud_k8s_auth.AuthService.Keeps.{Stored}
use go_cloud_k8s_auth.Browser.Handlers.Keeps as Pages
use go_cloud_k8s_auth.Connect.{
  Handler, Context, background, reply, is_public, intercept, get_user_from_context,
}
use go_cloud_k8s_auth.Connect.Interceptor.{intercept_private}
use go_cloud_k8s_auth.Connect.Keeps.{Keeps-guarded}
use go_cloud_k8s_auth.Connect.Auth.Keeps as AuthKeeps
use go_cloud_k8s_auth.Connect.Pats.Keeps as PatsKeeps
use go_cloud_k8s_auth.Connect.Users.Keeps.{handle-Keeps}
use go_cloud_k8s_auth.Connect.Users.Access.{
  Procedure, handle, lists, creates, gets, updates, deletes, counts, gets_by_external_id,
}
use go_cloud_k8s_auth.Server.{Moment, Wiring, Answer, list_default_limit, answering, in_app}
use go_cloud_k8s_auth.Server.Services.{
  Case, switch, unary, new_auth_service_handler, new_user_service_handler,
}
use go_cloud_k8s_auth.Server.Routes.{
  Http, Network, Target, at_login, at_oauth_start, at_oauth_callback, at_token, at_logout,
  transcoder, metrics, readiness, health, app_info, jwt_login, jwt_status, cases_of, call,
  transcoded, dispatch, serve, routes,
}

-- The Authorization header carries no JWT of an administrator.
abbrev pub IsUnprivileged : Platform → Bytes → Type 0
IsUnprivileged pf auth =
    (token : Bytes) (claims : UserInfo)
    → auth ≡ str "Bearer " ++ token
    → pf.parse_token token ≡ ok claims
    → claims.is_admin ≡ false

-- Then no handler sees the admin flag.
pub unprivileged_context :
    (pf : Platform) (procedure auth : Bytes) (ctx : Context)
    → IsUnprivileged pf auth
    → intercept pf procedure auth background ≡ reply ctx
    → (get_user_from_context ctx).1 ≡ false
unfolding intercept get_user_from_context
unprivileged_context pf procedure auth ctx u h = elim (Bool-cases (is_public procedure)) [
  | inl e ↦ ground arith
  | inr e ↦ elim (intercept_private pf procedure background auth e) [
    | inl (claims, (token, a, b), k) ↦ let f = u token claims a b in ground arith
    | inr (_, k) ↦ ground arith
  ]
]

module _ {S : Type 0} (P : S → Type 0) where
  in_app-Keeps : {A : Type 0} (m : Handler S A) → Keeps P m → Keeps (Stored P) (in_app m)
  in_app-Keeps m h = record { after = λ s p. h.after s.store p }

  answering-Keeps :
      {A : Type 0} (f : A → Answer) (m : Handler (App S) A)
      → Keeps (Stored P) m
      → Keeps (Stored P) (answering f m)
  answering-Keeps f m h = record { after = λ s p. ground (arith, h.after s p) }

  -- Every body keeps the predicate.
  abbrev CaseKeeps : Case S → Type 0
  CaseKeeps c = (body : Bytes) → Keeps (Stored P) (c.1 body)

  switch-Keeps :
      (path : Bytes) (cases : List (Case S)) (c : Case S)
      → All (CaseKeeps) cases
      → switch path cases ≡ some c
      → CaseKeeps c
  unfolding switch
  switch-Keeps path [] c a h = cc
  switch-Keeps path (d ∷ cases) c (k, a) h = elim (Bool-cases (path == d.0)) [
    | inl e ↦ let same : d ≡ c = ground arith in subst (CaseKeeps) same k
    | inr e ↦ switch-Keeps path cases c a (ground arith)
  ]

module _ {S : Type 0} (P : S → Type 0) (w : Wiring S) (m : Moment) where
  unary-Keeps :
      {M A : Type 0} (procedure : Bytes) (decode : Bytes → Option M) (answer : A → Answer)
      (next : Context → M → Handler (App S) A)
      → ((ctx : Context) (msg : M)
          → intercept w.platform procedure m.authorization background ≡ reply ctx
          → Keeps (Stored P) (next ctx msg))
      → CaseKeeps P (unary w m procedure decode answer next)
  unary-Keeps procedure decode answer next h body = record {
    after = λ s p. elim (Option-cases (decode body)) [
      | inl e ↦ rw e p
      | inr (msg, e) ↦ rw e (
          (Keeps-guarded (Stored P) w.platform procedure m.authorization background
              (λ ctx. answering answer (next ctx msg))
              (λ ctx i. answering-Keeps P answer (next ctx msg) (h ctx msg i))).after
            s p)
    ];
  }
