-- ===== src/UserService.antt =====
-- pkg/auth/user_service.go: `UserBusinessService`, over any user storage.
pub mod Accounts
pub mod Keeps
mod Tests
use go_cloud_k8s_auth.Prelude.{
  ℕ, Bytes, ◌==◌, bytes_eq, Bool, true, false, not, Option, none, some, List, [], ◌∷◌,
  if◌then◌else◌, length, ltb,
}
use go_cloud_k8s_auth.Prelude.Int.{ℤ}
use go_cloud_k8s_auth.Prelude.Strings.{str, is_empty, contains_byte}
use go_cloud_k8s_auth.Prelude.Error.{
  Error, Result, ok, err, Action, sentinel, wrap, invalid_input, user_not_found, no_rows, equals,
  lift, map_err, raise, ◌>>=◌, ◌>>◌,
}
use go_cloud_k8s_auth.Domain.{Uuid, User, UserList, min_name_length, min_email_length}
use go_cloud_k8s_auth.Platform.{Platform}
use go_cloud_k8s_auth.Storage.{UserStorage}
use go_cloud_k8s_auth.Storage.UserRows.{or_user}

unfoldable pub validate_user_input : Platform → Bytes → Bytes → Result (Unit {0})
validate_user_input pf name email =
    if ltb (length (pf.trim_space name)) min_name_length
    then err (wrap (sentinel invalid_input))
    else if ltb (length (pf.trim_space email)) min_email_length
    then err (wrap (sentinel invalid_input))
    else if not (contains_byte email b'@')
    then err (wrap (sentinel invalid_input))
    else ok tt

-- The defaults that `Create` fills in.
abbrev pub with_defaults : User → User
with_defaults u = record u {
  provider = if is_empty u.provider then str "local" else u.provider;
  roles = or_user u.roles;
  is_active = true;
}

-- `if err == pgx.ErrNoRows` of `Get` and `GetByExternalId`.
abbrev pub lookup_error : Error → Error
lookup_error e = if equals e no_rows then wrap (sentinel user_not_found) else wrap e

module _ {S : Type 0} (pf : Platform) (store : UserStorage S) where
  unfoldable pub list : ℤ → ℤ → Option Bool → Action S (List UserList)
  list offset limit disabled_filter s =
      let (r, t) = store.list offset limit disabled_filter s in
      (elim r [ ok rows ↦ ok rows | err e ↦ if equals e no_rows then ok [] else err (wrap e) ], t)

  unfoldable pub create : User → Action S User
  create user = do
    lift (validate_user_input pf user.name user.email)
    map_err wrap (store.create (with_defaults user))

  unfoldable pub get : Uuid → Action S User
  get id = map_err lookup_error (store.get_by_id id)

  -- `if !s.Store.Exist(ctx, id)`
  ensure_exists : Uuid → Action S (Unit {0})
  ensure_exists id s =
      let (found, t) = store.exist id s in
      (if found then ok tt else err (wrap (sentinel user_not_found)), t)

  unfoldable pub update : Uuid → User → Action S User
  unfolding ensure_exists
  update id user = do
    lift (validate_user_input pf user.name user.email)
    ensure_exists id
    map_err wrap (store.update id user)

  unfoldable pub delete : Uuid → Action S (Unit {0})
  unfolding ensure_exists
  delete id = do ensure_exists id; map_err wrap (store.delete id)

  unfoldable pub count : Option Bool → Action S ℤ
  count disabled_filter = map_err wrap (store.count disabled_filter)

  unfoldable pub get_by_external_id : ℤ → Action S User
  get_by_external_id external_id = map_err lookup_error (store.get_by_alternate_app_id external_id)
