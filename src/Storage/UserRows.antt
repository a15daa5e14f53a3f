-- ===== src/Storage/UserRows.antt =====
-- The expressions on rows of `users` in the queries of pkg/auth/sql.go, and the pages of a list.
use go_cloud_k8s_auth.Prelude.{
  Bytes, ◌==◌, bytes_eq, Bool, true, false, not, ◌&&◌, Option, none, some, if◌then◌else◌, find,
  take, drop, ltb, List, [], ◌∷◌, ◌++◌,
}
use go_cloud_k8s_auth.Prelude.Int.{ℤ, pos, negsuc, int_eq}
use go_cloud_k8s_auth.Prelude.Strings.{str, is_empty}
use go_cloud_k8s_auth.Prelude.Error.{Result, ok, err, other}
use go_cloud_k8s_auth.Rbac.{has_role}
use go_cloud_k8s_auth.Domain.{Time, Roles, User, UserList, OAuthUserInfo}

-- `COALESCE(NULLIF($2, ''), old)`
abbrev pub or_old : Bytes → Bytes → Bytes
or_old s old = if is_empty s then old else s

abbrev pub same_identity : OAuthUserInfo → User → Bool
same_identity info u = u.provider == info.provider && u.provider_id == info.provider_id

abbrev pub same_email : OAuthUserInfo → User → Bool
same_email info u = info.email_verified && u.email == info.email

-- The `target` of the upsert: the row of the OAuth identity, or else of the verified e-mail.
unfoldable pub target : OAuthUserInfo → List User → Option User
target info users = elim (find (same_identity info) users) [
  | some u ↦ some u
  | none ↦ find (same_email info) users
]

-- The row that `updated` writes over the target.
abbrev pub relinked : Time → OAuthUserInfo → User → User
relinked now info u = record u {
  email = info.email;
  name = or_old info.name u.name;
  avatar_url = or_old info.avatar_url u.avatar_url;
  provider = info.provider;
  provider_id = info.provider_id;
  last_login_at = some now;
}

-- `if len(roles) == 0 { roles = []string{"user"} }`
abbrev pub or_user : Roles → Roles
or_user none = some (str "user" ∷ [])
or_user (some []) = some (str "user" ∷ [])
or_user (some (r ∷ rs)) = some (r ∷ rs)

-- `array_append(roles, $2)`
abbrev pub with_role : Bytes → Roles → Roles
with_role role none = some (role ∷ [])
with_role role (some roles) = some (roles ++ role ∷ [])

-- `NOT ($2 = ANY(roles))`, which NULL does not satisfy.
abbrev pub lacks : Bytes → User → Bool
lacks role u = elim u.roles [ none ↦ false | some roles ↦ not (has_role (some roles) role) ]

abbrev pub to_list_row : User → UserList
to_list_row u = record {
  id = u.id;
  alternate_app_id = u.alternate_app_id;
  email = u.email;
  name = u.name;
  roles = u.roles;
  is_active = u.is_active;
  created_at = u.created_at;
  last_login_at = u.last_login_at;
}

-- The order of `created_at DESC`, where a missing time comes first.
abbrev pub newer : Option Time → Option Time → Bool
newer none _ = true
newer (some a) none = false
newer (some a) (some b) = ltb b a

-- `$1::boolean IS NULL OR is_active = $1`
abbrev pub passes : Option Bool → User → Bool
passes none u = true
passes (some true) u = u.is_active
passes (some false) u = not u.is_active

-- The disabled filter of the interface as a filter on `is_active`.
abbrev pub inverted : Option Bool → Option Bool
inverted none = none
inverted (some b) = some (not b)

-- `LIMIT $1 OFFSET $2`; PostgreSQL refuses negative numbers.
abbrev pub page : ℤ → ℤ → List UserList → Result (List UserList)
page (pos limit) (pos offset) rows = ok (take limit (drop offset rows))
page (negsuc _) _ rows = err (other 1)
page (pos _) (negsuc _) rows = err (other 2)
