-- ===== src/AuthService/Tokens.antt =====
-- pkg/auth/auth_service.go: `ValidateToken`, and the group ids of a JWT.
use go_cloud_k8s_auth.Prelude.{
  ℕ, ◌+◌, ◌*◌, ◌<◌, ◌%◌, Bytes, true, some, [], ◌∷◌, ◌≡◌, inl, inr, arith, All, length, ◌↔◌,
}
use go_cloud_k8s_auth.Prelude.Error.{Result-cases, ok}
use go_cloud_k8s_auth.Domain.{Uuid, User}
use go_cloud_k8s_auth.Platform.{Platform, UserInfo}
use go_cloud_k8s_auth.Storage.{UserStorage}
use go_cloud_k8s_auth.AuthService.{Settings, validate_token, group_id_as_int}

-- The number that the bytes spell, the most significant first.
abbrev pub big_endian : ℕ → Bytes → ℕ
big_endian n [] = n
big_endian n (b ∷ s) = big_endian (n * 256 + b) s

-- The group number in a JWT is the 128-bit value of the UUID, of sixteen bytes, modulo 2^32.
pub group_id_mod :
    (gid : Uuid)
    → length gid ≡ 16
    → All (λ b. b < 256) gid
    → group_id_as_int gid ≡ big_endian 0 gid % 4294967296
unfolding group_id_as_int
group_id_mod (a ∷ b ∷ c ∷ d ∷ e ∷ f ∷ g ∷ h ∷ i ∷ j ∷ k ∷ l ∷ m ∷ n ∷ o ∷ p ∷ []) len bytes =
    omega (arith, bytes)
group_id_mod _ len bytes = omega (arith, len)

module _ {S : Type 0} (pf : Platform) (set : Settings) (store : UserStorage S) where
  -- A token is accepted exactly if it parses and the storage finds an active user under the id in
  -- its claims, and it is accepted as that user.
  pub validate_token_iff :
      (token : Bytes) (u : User) (s t : S)
      → (validate_token pf set store token s ≡ (ok (true, some u), t)) ↔ (
          (claims : UserInfo) × (pf.parse_token token ≡ ok claims)
          × (store.get_by_alternate_app_id claims.user_id s ≡ (ok u, t))
          × (u.is_active ≡ true))
  unfolding validate_token
  validate_token_iff token u s t = (accepted, λ h. ground arith)
    where
      accepted :
          validate_token pf set store token s ≡ (ok (true, some u), t)
          → (claims : UserInfo) × (pf.parse_token token ≡ ok claims)
            × (store.get_by_alternate_app_id claims.user_id s ≡ (ok u, t))
            × (u.is_active ≡ true)
      accepted h = elim (Result-cases (pf.parse_token token)) [
        | inl (claims, p) ↦ (claims, p, ground arith, ground arith)
        | inr (e, p) ↦ ground arith
      ]
