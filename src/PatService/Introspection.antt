-- ===== src/PatService/Introspection.antt =====
-- pkg/auth/pat_service.go: `Introspect`, over any storage.
use go_cloud_k8s_auth.Prelude.{Bytes, bytes_eq, true, false, none, ◌≡◌, arith, inl, inr}
use go_cloud_k8s_auth.Prelude.Strings.{has_prefix}
use go_cloud_k8s_auth.Prelude.Error.{ok}
use go_cloud_k8s_auth.Prelude.Invert.{Outcome-cases}
use go_cloud_k8s_auth.Domain.{Time, User, PersonalAccessToken}
use go_cloud_k8s_auth.Platform.{Platform}
use go_cloud_k8s_auth.Storage.{UserStorage, PatStorage}
use go_cloud_k8s_auth.PatService.{
  PatIntrospection, pat_token_prefix, hash_pat_token, expired, introspect, check_pat, check_owner,
  confirm,
}

module _ {S : Type 0} (pf : Platform) (pats : PatStorage S) (users : UserStorage S) where
  -- The reply, and the state, for a token of this row and an owner.
  abbrev pub IsConfirmed : Time → Bytes → S → PatIntrospection → S → Type 0
  IsConfirmed now token s r t =
      (p : PersonalAccessToken) × (u : User) × (s₁ : S) × (s₂ : S) × (has_prefix token
          pat_token_prefix
        ≡ true)
      × (pats.get_by_hash (hash_pat_token pf token) s ≡ (ok p, s₁))
      × (p.revoked_at ≡ none)
      × (expired now p ≡ false)
      × (users.get_by_id p.user_id s₁ ≡ (ok u, s₂))
      × (u.is_active ≡ true)
      × (r.user_id ≡ u.alternate_app_id)
      × (r.email ≡ u.email)
      × (r.scopes ≡ p.scopes)
      × (t ≡ (pats.touch_last_used p.id s₂).1)

  owner-IsConfirmed :
      (now : Time) (p : PersonalAccessToken) (s t : S) (r : PatIntrospection)
      → check_owner pf pats users p s ≡ (ok r, t)
      → r.active ≡ true
      → (u : User) × (s₂ : S) × (users.get_by_id p.user_id s ≡ (ok u, s₂))
        × (u.is_active ≡ true)
        × (r.user_id ≡ u.alternate_app_id)
        × (r.email ≡ u.email)
        × (r.scopes ≡ p.scopes)
        × (t ≡ (pats.touch_last_used p.id s₂).1)
  unfolding check_owner confirm
  owner-IsConfirmed now p s t r h a = elim (Outcome-cases (users.get_by_id p.user_id s)) [
    | inr (e, s₂, f) ↦ ground arith
    | inl (u, s₂, f) ↦
        let active : u.is_active ≡ true = ground arith in
        let same : (ok r, t) ≡ confirm pf pats users p u s₂ = ground arith in
        (u, s₂, f, active, ground arith, ground arith, ground arith, ground arith)
  ]

  -- A token is reported active only if it begins with "pat_", the row of its hash is neither revoked
  -- nor past its end, and its owner is found and active; the report then names that owner and that
  -- row's scopes, and the use of that row is recorded.
  pub introspect-IsConfirmed :
      (now : Time) (token : Bytes) (s t : S) (r : PatIntrospection)
      → introspect pf pats users now token s ≡ (ok r, t)
      → r.active ≡ true
      → IsConfirmed now token s r t
  unfolding introspect check_pat
  introspect-IsConfirmed now token s t r h a =
      elim (Outcome-cases (pats.get_by_hash (hash_pat_token pf token) s)) [
        | inr (e, s₁, f) ↦ ground arith
        | inl (p, s₁, f) ↦
            let shaped : has_prefix token pat_token_prefix ≡ true = ground arith in
            let open_ : p.revoked_at ≡ none = ground arith in
            let fresh : expired now p ≡ false = ground arith in
            let k : check_owner pf pats users p s₁ ≡ (ok r, t) = ground arith in
            let (u, s₂, o, a₁, b₁, c₁, d₁, e₁) = owner-IsConfirmed now p s₁ t r k a in
            (p, u, s₁, s₂, shaped, f, open_, fresh, o, a₁, b₁, c₁, d₁, e₁)
      ]
