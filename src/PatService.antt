-- ===== src/PatService.antt =====
-- pkg/auth/pat_service.go: `PatBusinessService`, over any storage of tokens and of users.
pub mod Scopes
pub mod Tokens
pub mod RoundTrip
mod Tests
pub mod Introspection
pub mod Keeps
use go_cloud_k8s_auth.Prelude.{
  ℕ, zero, suc, Bytes, ◌==◌, bytes_eq, Bool, true, false, not, ◌&&◌, ◌||◌, Option, none, some, List,
  [], ◌∷◌, ◌++◌, if◌then◌else◌, all, length, take, ltb,
}
use go_cloud_k8s_auth.Prelude.Int.{ℤ, pos, negsuc, is_negative}
use go_cloud_k8s_auth.Prelude.Strings.{str, is_empty, has_prefix, hex}
use go_cloud_k8s_auth.Prelude.Error.{
  Error, Result, ok, err, Action, sentinel, wrap, other, invalid_input, pat_not_found, equals, pure,
  raise, lift, ◌>>=◌, ◌>>◌,
}
use go_cloud_k8s_auth.Domain.{Uuid, Time, User, PersonalAccessToken}
use go_cloud_k8s_auth.Platform.{Platform}
use go_cloud_k8s_auth.Storage.{UserStorage, PatStorage}
use Scopes.{matches_scope}

abbrev pub pat_token_prefix : Bytes
pat_token_prefix = str "pat_"

abbrev pub pat_random_chars : ℕ
pat_random_chars = 32

abbrev pub pat_base62 : Bytes
pat_base62 = str "0123456789ABCDEFGHIJKLMNOPQRSTUVWXYZabcdefghijklmnopqrstuvwxyz"

abbrev pub pat_display_prefix_len : ℕ
pat_display_prefix_len = 12

abbrev pub default_pat_scopes : List Bytes
default_pat_scopes = str "notes:read" ∷ str "notes:write" ∷ str "notes:mcp" ∷ []

pub record PatIntrospection : Type 0 where
  pub active : Bool
  pub user_id : ℤ
  pub email : Bytes
  pub name : Bytes
  pub scopes : List Bytes
  pub expires_at : Option Time

abbrev pub inactive : PatIntrospection
inactive = record {
  active = false;
  user_id = pos 0;
  email = [];
  name = [];
  scopes = [];
  expires_at = none;
}

-- `patBase62[n]`; an index out of range would panic.
unfoldable pub index : Bytes → ℕ → Result ℕ
index [] n = err (other 7)
index (c ∷ s) zero = ok c
index (c ∷ s) (suc n) = index s n

-- The loop of `generatePatToken`: `draw i` is the outcome of the call of `rand.Int` with `i` to go.
unfoldable pub random_chars : (ℕ → Result ℕ) → ℕ → Result Bytes
random_chars draw zero = ok []
random_chars draw (suc i) = elim (draw i) [
  | err e ↦ err (wrap e)
  | ok n ↦ elim (index pat_base62 n) [
    | err e ↦ err e
    | ok c ↦ elim (random_chars draw i) [ err e ↦ err e | ok rest ↦ ok (c ∷ rest) ]
  ]
]

unfoldable pub generate_pat_token : (ℕ → Result ℕ) → Result Bytes
generate_pat_token draw = elim (random_chars draw pat_random_chars) [
  | err e ↦ err e
  | ok s ↦ ok (pat_token_prefix ++ s)
]

unfoldable pub hash_pat_token : Platform → Bytes → Bytes
hash_pat_token pf token = hex (pf.sha256 token)

unfoldable pub validate_pat_scopes : List Bytes → Result (List Bytes)
validate_pat_scopes [] = ok default_pat_scopes
validate_pat_scopes (s ∷ ss) =
    if all matches_scope (s ∷ ss) then ok (s ∷ ss) else err (wrap (sentinel invalid_input))

abbrev pub expiry : Platform → Time → ℤ → Option Time
expiry pf now (pos zero) = none
expiry pf now (pos (suc n)) = some (pf.add_days now (suc n))
expiry pf now (negsuc n) = none

-- `pat.ExpiresAt != nil && time.Now().After(*pat.ExpiresAt)`
abbrev pub expired : Time → PersonalAccessToken → Bool
expired now p = elim p.expires_at [ none ↦ false | some t ↦ ltb t now ]

abbrev pub is_revoked : PersonalAccessToken → Bool
is_revoked p = elim p.revoked_at [ none ↦ false | some _ ↦ true ]

module _ {S : Type 0} (pf : Platform) (pats : PatStorage S) (users : UserStorage S) where
  unfoldable pub create :
      (ℕ → Result ℕ) → Time → Uuid → Bytes → List Bytes → ℤ → Action S (Bytes × PersonalAccessToken)
  create draw now user_id name scopes expires_in_days =
      if is_empty name || ltb 100 (length name)
      then raise (wrap (sentinel invalid_input))
      else if is_negative expires_in_days
      then raise (wrap (sentinel invalid_input))
      else do
        normalized_scopes ← lift (validate_pat_scopes scopes)
        token ← lift (generate_pat_token draw)
        pat ←
            pats.create user_id (hash_pat_token pf token) (take pat_display_prefix_len token) name
              normalized_scopes (expiry pf now expires_in_days)
        pure (token, pat)

  unfoldable pub list : Uuid → Action S (List PersonalAccessToken)
  list user_id = pats.list_by_user user_id

  unfoldable pub revoke : Uuid → Uuid → Action S (Unit {0})
  revoke id user_id = pats.revoke id user_id

  -- The answer for an active owner, with the goroutine that records the use; its error is only logged.
  confirm : PersonalAccessToken → User → Action S PatIntrospection
  confirm p user s = (
    ok (record {
      active = true;
      user_id = user.alternate_app_id;
      email = user.email;
      name = user.name;
      scopes = p.scopes;
      expires_at = p.expires_at;
    }),
    (pats.touch_last_used p.id s).1,
  )

  -- From the lookup of the owner on.
  check_owner : PersonalAccessToken → Action S PatIntrospection
  unfolding confirm
  check_owner p s =
      let (r, t) = users.get_by_id p.user_id s in
      elim r [
        | err _ ↦ (ok inactive, t)
        | ok user ↦ if not user.is_active then (ok inactive, t) else confirm p user t
      ]

  check_pat : Time → PersonalAccessToken → Action S PatIntrospection
  unfolding check_owner
  check_pat now p s =
      if is_revoked p
      then (ok inactive, s)
      else if expired now p
      then (ok inactive, s)
      else check_owner p s

  unfoldable pub introspect : Time → Bytes → Action S PatIntrospection
  unfolding check_pat
  introspect now token s =
      if not (has_prefix token pat_token_prefix)
      then (ok inactive, s)
      else let (r, t) = pats.get_by_hash (hash_pat_token pf token) s in
        elim r [
          | err e ↦ if equals e pat_not_found then (ok inactive, t) else (err e, t)
          | ok p ↦ check_pat now p t
        ]
