-- ===== src/AuthService/Issued.antt =====
-- pkg/auth/auth_service.go: what `HandleCallback` hands out.
use go_cloud_k8s_auth.Prelude.{ℕ, Bytes, none, List, [], ◌≡◌, ◌≢◌, arith, inl, inr, subst}
use go_cloud_k8s_auth.Prelude.Error.{wrap, ok, err, Action, pure, ◌>>=◌}
use go_cloud_k8s_auth.Prelude.Invert.{>>=-ok, Outcome-cases}
use go_cloud_k8s_auth.Domain.{Time, User}
use go_cloud_k8s_auth.Platform.{Platform}
use go_cloud_k8s_auth.Storage.{UserStorage, UserStorageLaws}
use go_cloud_k8s_auth.StateStore.{validate, validate_and_consume}
use go_cloud_k8s_auth.Mappers.{domain_user_to_jwt_user_info}
use go_cloud_k8s_auth.AuthService.{
  App, Settings, on_store, authenticate_oauth_user, get_group_ids_as_ints, issue_jwt_for_user,
  check_state, handle_callback,
}
use go_cloud_k8s_auth.AuthService.Login.{IsAdmitted, authenticated-IsAdmitted}

on_store-ok :
    {S A : Type 0} (m : Action S A) (s t : App S) (a : A)
    → on_store m s ≡ (ok a, t)
    → m s.store ≡ (ok a, t.store)
on_store-ok m s t a h = ground arith

module _ {S : Type 0} (pf : Platform) (set : Settings) (store : UserStorage S) where
  -- The JWT is the signed claims of this user, with some list of groups.
  abbrev pub IsTokenOf : User → Bytes → Type 0
  IsTokenOf u jwt =
      (groups : List ℕ) × (pf.token_from_user_info (domain_user_to_jwt_user_info u groups) ≡ ok jwt)

  pub issued-IsTokenOf :
      (u : User) (s t : S) (jwt : Bytes)
      → issue_jwt_for_user pf set store u s ≡ (ok jwt, t)
      → IsTokenOf u jwt
  unfolding issue_jwt_for_user
  issued-IsTokenOf u s t jwt h = elim (Outcome-cases (get_group_ids_as_ints pf set store u s)) [
    | inl (ids, s₁, e) ↦ (ids, signed ids (ground arith))
    | inr (x, s₁, e) ↦ ([], signed [] (ground arith))
  ]
    where
      signed :
          (groups : List ℕ)
          → (elim (pf.token_from_user_info (domain_user_to_jwt_user_info u groups)) [
            | err e ↦ err (wrap e)
            | ok token ↦ ok token
          ])
            ≡ ok jwt
          → pf.token_from_user_info (domain_user_to_jwt_user_info u groups) ≡ ok jwt
      signed groups k = ground arith

  state-accepted :
      (now : Time) (provider state : Bytes) (s t : App S)
      → check_state pf set store now state provider s ≡ (ok tt, t)
      → (validate_and_consume now state provider s.states).0 ≢ none
  unfolding check_state validate
  state-accepted now provider state s t h e = ground arith

  -- A callback that completes was given a state that was waiting for its provider, and hands out the JWT
  -- of a user who is admitted: active, and if listed as one of the first administrators, one with the
  -- role "admin" or without a list of roles. The storage is to keep its contract on grants.
  pub callback_issued :
      (laws : UserStorageLaws store) (now : Time) (provider code state jwt : Bytes) (u : User)
      (s t : App S)
      → handle_callback pf set store now provider code state s ≡ (ok (jwt, u), t)
      → ((validate_and_consume now state provider s.states).0 ≢ none)
        × IsAdmitted pf set store u
        × IsTokenOf u jwt
  unfolding handle_callback
  callback_issued laws now provider code state jwt u s t h =
      let (_, s₁, a, h₁) =
        >>=-ok (check_state pf set store now state provider)
          (λ _. on_store (authenticate_oauth_user pf set store provider code []) >>= issue) s h in
      let (v, s₂, b, h₂) =
        >>=-ok (on_store (authenticate_oauth_user pf set store provider code [])) issue s₁ h₁ in
      let (token, s₃, c, h₃) =
        >>=-ok (on_store (issue_jwt_for_user pf set store v)) (λ token. pure (token, v)) s₂ h₂ in
      let same : (token ≡ jwt) × (v ≡ u) = ground arith in
      let admitted =
        authenticated-IsAdmitted pf set store laws provider code [] s₁.store s₂.store v
          (on_store-ok (authenticate_oauth_user pf set store provider code []) s₁ s₂ v b) in
      let signed =
        issued-IsTokenOf v s₂.store s₃.store token
          (on_store-ok (issue_jwt_for_user pf set store v) s₂ s₃ token c) in
      (
        state-accepted now provider state s s₁ a,
        subst (IsAdmitted pf set store) same.1 admitted,
        subst (IsTokenOf u) same.0 (subst (λ w. IsTokenOf w token) same.1 signed),
      )
    where
      issue : User → Action (App S) (Bytes × User)
      issue v = do token ← on_store (issue_jwt_for_user pf set store v); pure (token, v)
