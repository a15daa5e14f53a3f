-- ===== src/Connect/Interceptor.antt =====
-- pkg/auth/auth_interceptor.go: the requests that pass, and the caller that the handlers see.
use go_cloud_k8s_auth.Prelude.{
  ℕ, ◌+◌, Bytes, bytes_beq, bytes_eq, false, none, some, ◌∷◌, ◌++◌, ◌≡◌, ◌∙◌, ap, length,
  length-append, bytes_cases, bytes_beq_self, arith, ◌⊎◌, inl, inr, Option-cases,
}
use go_cloud_k8s_auth.Prelude.Int.{pos, int_eq, to_int32_wraps, int32_mod}
use go_cloud_k8s_auth.Prelude.Strings.{
  str, strip_prefix, trim_prefix, strip_prefix-append, strip_prefix_sound,
}
use go_cloud_k8s_auth.Prelude.Error.{Error, ok, err, Result-cases}
use go_cloud_k8s_auth.Platform.{Platform, UserInfo}
use go_cloud_k8s_auth.Connect.{
  unauthenticated, reply, fail, Context, is_public, with_claims, intercept, get_user_from_context,
}

stripped : (token : Bytes) → strip_prefix (str "Bearer ") (str "Bearer " ++ token) ≡ some token
stripped token = strip_prefix-append (str "Bearer ") token

-- What remains behind a prefix is not the whole.
longer : (p s : Bytes) (c : ℕ) → bytes_beq s ((c ∷ p) ++ s) ≡ false
longer p s c = elim (bytes_cases s ((c ∷ p) ++ s)) [
  | inl (_, e) ↦
      let l : length s ≡ length ((c ∷ p) ++ s) = ap length e in ground (arith, length-append p s)
  | inr (e, _) ↦ e
]

module _ (pf : Platform) (procedure : Bytes) (ctx : Context) where
  -- The header carries a token that the JWT checker accepts.
  abbrev pub Authenticated : Bytes → UserInfo → Type 0
  Authenticated auth claims =
      (token : Bytes) × (auth ≡ str "Bearer " ++ token) × (pf.parse_token token ≡ ok claims)

  pub bearer-intercept :
      (token : Bytes)
      → is_public procedure ≡ false
      → intercept pf procedure (str "Bearer " ++ token) ctx ≡ elim (pf.parse_token token) [
        | err _ ↦ fail unauthenticated
        | ok claims ↦ reply (with_claims claims ctx)
      ]
  unfolding intercept trim_prefix
  bearer-intercept token private = rw (private, longer (str "earer ") token b'B')

  other-intercept :
      (auth : Bytes)
      → is_public procedure ≡ false
      → strip_prefix (str "Bearer ") auth ≡ none
      → intercept pf procedure auth ctx ≡ fail unauthenticated
  unfolding intercept trim_prefix
  other-intercept auth private h = ground (arith, bytes_beq_self auth)

  -- A procedure that is not public reaches its handler only with an Authorization header "Bearer "
  -- and a token that the JWT checker accepts, and then with that token's user in the context;
  -- every other request is refused as unauthenticated.
  pub intercept_private :
      (auth : Bytes)
      → is_public procedure ≡ false
      → ((claims : UserInfo) × Authenticated auth claims
          × (intercept pf procedure auth ctx ≡ reply (with_claims claims ctx)))
        ⊎ (((claims : UserInfo) → Authenticated auth claims → ⊥)
            × (intercept pf procedure auth ctx ≡ fail unauthenticated))
  intercept_private auth private = elim (Option-cases (strip_prefix (str "Bearer ") auth)) [
    | inl none_ ↦ inr ((λ claims h. not_none h.0 none_ h.1), other-intercept auth private none_)
    | inr (token, e) ↦
        let same : auth ≡ str "Bearer " ++ token =
          strip_prefix_sound (str "Bearer ") auth token e in
        let run = bearer-intercept token private in
        elim (Result-cases (pf.parse_token token)) [
          | inl (claims, p) ↦ inl (claims, (token, same, p), rw same (run ∙ rw p))
          | inr (x, p) ↦ inr ((λ claims h. refused token claims x e p h), rw same (run ∙ rw p))
        ]
  ]
    where
      not_none :
          (token : Bytes)
          → strip_prefix (str "Bearer ") auth ≡ none
          → auth ≡ str "Bearer " ++ token
          → ⊥
      not_none token n e =
          let h : strip_prefix (str "Bearer ") auth ≡ some token = rw e (stripped token) in cc

      refused :
          (token : Bytes) (claims : UserInfo) (x : Error)
          → strip_prefix (str "Bearer ") auth ≡ some token
          → pf.parse_token token ≡ err x
          → Authenticated auth claims
          → ⊥
      refused token claims x e p (token', e', p') =
          let h : strip_prefix (str "Bearer ") auth ≡ some token' = rw e' (stripped token') in
          ground arith

  -- Of the claims of two users whose numeric ids are n and n + 2^32, the handlers read the same
  -- caller's id from the context.
  pub callers_conflated :
      (a b : UserInfo) (n : ℕ)
      → a.user_id ≡ pos n
      → b.user_id ≡ pos (n + int32_mod)
      → (get_user_from_context (with_claims b ctx)).0
        ≡ (get_user_from_context (with_claims a ctx)).0
  unfolding get_user_from_context
  callers_conflated a b n e f = rw (e, f) (to_int32_wraps n)
