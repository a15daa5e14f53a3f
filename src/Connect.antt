-- ===== src/Connect.antt =====
-- What the Connect servers of pkg/auth share: the status codes of connect.NewError, a handler on a
-- state `S`, the caller in the context (pkg/auth/auth_interceptor.go), and the interceptor.
pub mod Users
pub mod Auth
pub mod Pats
pub mod Invert
pub mod Keeps
pub mod Interceptor
mod Tests
use go_cloud_k8s_auth.Prelude.{
  ℕ, Bytes, ◌==◌, bytes_eq, Bool, true, false, Option, none, some, List, [], ◌∷◌, if◌then◌else◌,
  any,
}
use go_cloud_k8s_auth.Prelude.Int.{ℤ, pos, int_eq, to_int32}
use go_cloud_k8s_auth.Prelude.Strings.{str, is_empty, trim_prefix}
use go_cloud_k8s_auth.Prelude.Error.{Error, Result, ok, err, Action}
use go_cloud_k8s_auth.Platform.{Platform, UserInfo}

pub data Code : Type 0 where
  invalid_argument not_found already_exists permission_denied failed_precondition : Code
  unauthenticated unavailable internal : Code

pub data Reply (A : Type 0) : Type 0 where
  reply : A → Reply A
  fail : Code → Reply A

abbrev pub Handler : Type 0 → Type 0 → Type 0
Handler S A = S → Reply A × S

module _ {S A : Type 0} where
  abbrev pub respond : A → Handler S A
  respond a s = (reply a, s)

  abbrev pub refuse : Code → Handler S A
  refuse c s = (fail c, s)

  -- A call of a service, with the code for its error.
  abbrev pub serve : (Error → Code) → Action S A → Handler S A
  serve code m s = let (r, t) = m s in elim r [ ok a ↦ (reply a, t) | err e ↦ (fail (code e), t) ]

infixl 5 ◌>>=◌ ◌>>◌
abbrev pub ◌>>=◌ : {S A B : Type 0} → Handler S A → (A → Handler S B) → Handler S B
◌>>=◌ m f s = let (r, t) = m s in elim r [ reply a ↦ f a t | fail c ↦ (fail c, t) ]

abbrev pub ◌>>◌ : {S A B : Type 0} → Handler S A → Handler S B → Handler S B
m >> k = m >>= λ _. k

-- The values that the interceptor puts into the context, each `none` where it did not run.
pub record Context : Type 0 where
  pub auth_user_id : Option ℤ
  pub auth_is_admin : Option Bool
  pub auth_user_info : Option UserInfo

abbrev pub background : Context
background = record { auth_user_id = none; auth_is_admin = none; auth_user_info = none }

-- `GetUserFromContext`: the id, or 0, and the admin flag, or false.
unfoldable pub get_user_from_context : Context → ℤ × Bool
get_user_from_context ctx = (
  elim ctx.auth_user_id [ none ↦ pos 0 | some id ↦ id ],
  elim ctx.auth_is_admin [ none ↦ false | some admin ↦ admin ],
)

-- `GetUserInfoFromContext`
abbrev pub get_user_info_from_context : Context → Option UserInfo
get_user_info_from_context ctx = ctx.auth_user_info

-- `MustGetUserFromContext`; `none` is its panic.
unfoldable pub must_get_user_from_context : Context → Option (ℤ × Bool)
unfolding get_user_from_context
must_get_user_from_context ctx =
    let (id, admin) = get_user_from_context ctx in if id == pos 0 then none else some (id, admin)

abbrev pub public_procedures : List Bytes
public_procedures =
    str "/auth.v1.AuthService/StartOAuth"
    ∷ str "/auth.v1.AuthService/OAuthCallback"
    ∷ str "/auth.v1.AuthService/ValidateToken"
    ∷ str "/auth.v1.AuthService/IntrospectToken"
    ∷ []

-- `publicProcedures[procedure]`
unfoldable pub is_public : Bytes → Bool
is_public procedure = any (λ p. p == procedure) public_procedures

-- The context with the user of the claims, whose id goes through `int32(…)`.
abbrev pub with_claims : UserInfo → Context → Context
with_claims claims ctx = record ctx {
  auth_user_id = some (to_int32 claims.user_id);
  auth_is_admin = some claims.is_admin;
  auth_user_info = some claims;
}

abbrev bearer : Bytes
bearer = str "Bearer "

-- The decision of `NewAuthInterceptor`: the context for the handler, or the refusal. `auth` is the
-- Authorization header, empty where it is missing.
unfoldable pub intercept : Platform → Bytes → Bytes → Context → Reply Context
intercept pf procedure auth ctx =
    if is_public procedure
    then reply ctx
    else if is_empty auth
    then fail unauthenticated
    else let token = trim_prefix auth bearer in
      if token == auth then fail unauthenticated else elim (pf.parse_token token) [
        | err _ ↦ fail unauthenticated
        | ok claims ↦ reply (with_claims claims ctx)
      ]

-- A handler behind the interceptor.
abbrev pub guarded :
    {S A : Type 0} → Platform → Bytes → Bytes → Context → (Context → Handler S A) → Handler S A
guarded pf procedure auth ctx next s = elim (intercept pf procedure auth ctx) [
  | fail c ↦ (fail c, s)
  | reply ctx' ↦ next ctx' s
]
