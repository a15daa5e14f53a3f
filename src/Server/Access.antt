-- ===== src/Server/Access.antt =====
-- The procedures of gen/auth/v1/authv1connect/auth.connect.go behind the interceptor, by the paths of
-- the requests.
use go_cloud_k8s_auth.Prelude.{
  Bytes, false, Option, some, List, [], ◌∷◌, ◌≡◌, ◌⊎◌, inl, inr, refl, arith, ◌==◌, bytes_eq,
  bytes_beq_iff, subst, All, Bool-cases, Option-cases,
}
use go_cloud_k8s_auth.Prelude.Strings.{str, has_prefix}
use go_cloud_k8s_auth.Platform.{UserInfo}
use go_cloud_k8s_auth.AuthService.{App}
use go_cloud_k8s_auth.Connect.{
  Handler, Context, background, fail, unauthenticated, invalid_argument, is_public, guarded,
}
use go_cloud_k8s_auth.Connect.Interceptor.{Authenticated, intercept_private}
use go_cloud_k8s_auth.Server.{Moment, Wiring, Answer}
use go_cloud_k8s_auth.Server.Services.{
  Case, switch, unary, new_auth_service_handler, new_user_service_handler,
}
use go_cloud_k8s_auth.Server.Routes.{Network, Outcome, rpc, not_found, cases_of, call}

module _ {S : Type 0} (w : Wiring S) (m : Moment) where
  -- The header does not name a user.
  abbrev pub IsAnonymous : Bytes → Type 0
  IsAnonymous procedure =
      (claims : UserInfo) → Authenticated w.platform procedure background m.authorization claims → ⊥

  -- The request is refused, and nothing changes.
  abbrev pub IsRefused : App S → Outcome × App S → Type 0
  IsRefused s r =
      (r ≡ (not_found, s))
      ⊎ (r ≡ (rpc (fail unauthenticated), s))
      ⊎ (r ≡ (rpc (fail invalid_argument), s))

  -- A case refuses where its procedure is not public and the header names no user.
  abbrev Refuses : Case S → Type 0
  Refuses c =
      (body : Bytes) (s : App S)
      → is_public c.0 ≡ false
      → IsAnonymous c.0
      → (c.1 body s ≡ (fail unauthenticated, s)) ⊎ (c.1 body s ≡ (fail invalid_argument, s))

  unary-Refuses :
      {M A : Type 0} (procedure : Bytes) (decode : Bytes → Option M) (answer : A → Answer)
      (next : Context → M → Handler (App S) A)
      → Refuses (unary w m procedure decode answer next)
  unary-Refuses procedure decode answer next body s private anonymous =
      elim (Option-cases (decode body)) [
        | inl e ↦ inr (rw e refl)
        | inr (msg, e) ↦
            elim (intercept_private w.platform procedure background m.authorization private) [
              | inl (claims, a, _) ↦ absurd (anonymous claims a)
              | inr (_, k) ↦ inl (rw (e, k, guarded) refl)
            ]
      ]

  auth_service-Refuses : All Refuses (new_auth_service_handler w m)
  auth_service-Refuses = (
    unary-Refuses _ _ _ _,
    (
      unary-Refuses _ _ _ _,
      (
        unary-Refuses _ _ _ _,
        (
          unary-Refuses _ _ _ _,
          (
            unary-Refuses _ _ _ _,
            (unary-Refuses _ _ _ _, (unary-Refuses _ _ _ _, (unary-Refuses _ _ _ _, tt))),
          ),
        ),
      ),
    ),
  )

  user_service-Refuses : All Refuses (new_user_service_handler w m)
  user_service-Refuses = (
    unary-Refuses _ _ _ _,
    (
      unary-Refuses _ _ _ _,
      (
        unary-Refuses _ _ _ _,
        (
          unary-Refuses _ _ _ _,
          (unary-Refuses _ _ _ _, (unary-Refuses _ _ _ _, (unary-Refuses _ _ _ _, tt))),
        ),
      ),
    ),
  )

  switch-Refuses :
      (path : Bytes) (cases : List (Case S)) (c : Case S)
      → All Refuses cases
      → switch path cases ≡ some c
      → (path ≡ c.0) × Refuses c
  unfolding switch
  switch-Refuses path [] c a h = cc
  switch-Refuses path (d ∷ cases) c (k, a) h = elim (Bool-cases (path == d.0)) [
    | inl e ↦
        let same : d ≡ c = ground arith in
        subst (λ x. (path ≡ x.0) × Refuses x) same ((bytes_beq_iff path d.0).0 e, k)
    | inr e ↦ switch-Refuses path cases c a (ground arith)
  ]

  cases-Refuses : (net : Network) (procedure : Bytes) → All Refuses (cases_of w net m procedure)
  cases-Refuses net procedure =
      elim (Bool-cases (has_prefix procedure (str "/auth.v1.AuthService/"))) [
        | inl e ↦ rw e auth_service-Refuses
        | inr e ↦ elim (Bool-cases (has_prefix procedure (str "/auth.v1.UserService/"))) [
          | inl f ↦ rw (e, f) user_service-Refuses
          | inr f ↦ rw (e, f) tt
        ]
      ]

  -- A call of any procedure but the public ones whose Authorization header is not "Bearer " and a token
  -- that the JWT checker accepts is refused: the path is not found, the body is not a message of the
  -- procedure, or the caller is unauthenticated; and the state stays as it is.
  pub call-IsRefused :
      (net : Network) (procedure message : Bytes) (s : App S)
      → is_public procedure ≡ false
      → IsAnonymous procedure
      → IsRefused s (call w net m procedure message s)
  unfolding call
  call-IsRefused net procedure message s private anonymous =
      elim (Option-cases (switch procedure (cases_of w net m procedure))) [
        | inl e ↦ inl (rw (e, call) refl)
        | inr (c, e) ↦
            let (same, k) =
              switch-Refuses procedure (cases_of w net m procedure) c (cases-Refuses net procedure)
                e in
            elim (k message s (subst (λ x. is_public x ≡ false) same private)
              (subst IsAnonymous same anonymous)) [
                | inl h ↦ inr (inl (rw (e, call, h) refl))
                | inr h ↦ inr (inr (rw (e, call, h) refl))
              ]
      ]
