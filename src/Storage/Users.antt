-- ===== src/Storage/Users.antt =====
-- pkg/auth/storage_postgres.go with the queries of pkg/auth/sql.go: each method of `PGX` is the Go
-- code around its query, and the query is its effect on the tables. `now` is NOW().
pub mod Rows
pub mod Writes
pub mod Admins
pub mod Reads
pub mod Scans
pub mod Pages
pub mod Identity
pub mod Unique
pub mod Roles
pub mod Lookup
pub mod Findings
mod Tests
use go_cloud_k8s_auth.Prelude.{
  ℕ, suc, ◌+◌, Bytes, ◌==◌, bytes_eq, Bool, true, false, not, ◌&&◌, ◌||◌, Option, none, some, List,
  [], ◌∷◌, ◌++◌, map, if◌then◌else◌, any, keep, find, update_where, length, take, drop, ltb,
}
use go_cloud_k8s_auth.Prelude.Int.{ℤ, pos, negsuc, int_eq, to_int32}
use go_cloud_k8s_auth.Prelude.Strings.{str, is_empty}
use go_cloud_k8s_auth.Prelude.Error.{
  Error, Constraint, users_email_key, groups_owner_fkey, Result, ok, err, Action, sentinel, wrap,
  other, pg_unique, pg_other, email_in_use, no_rows, is, pure, raise, lift, map_err, ◌>>=◌, ◌>>◌,
}
use go_cloud_k8s_auth.Domain.{Uuid, Time, User, UserList, OAuthUserInfo, Group, UserGroup}
use go_cloud_k8s_auth.Platform.{Platform}
use go_cloud_k8s_auth.Rbac.{has_role}
use go_cloud_k8s_auth.Storage.{UserStorage}
use go_cloud_k8s_auth.Storage.UserRows.{
  or_old, same_identity, same_email, target, relinked, or_user, with_role, lacks, to_list_row,
  newer, passes, inverted, page,
}
use go_cloud_k8s_auth.Storage.Db.{Db, query, violation, others, sort_by}

module _ (pf : Platform) (now : Time) where
  -- pgxscan.Get on a query that returns at most one row.
  get_one : Option User → Action Db User
  get_one none = raise pf.not_found
  get_one (some u) = pure u

  -- The row of an INSERT, with the defaults of the columns that the statement leaves out.
  abbrev pub inserted : User → Db → User
  inserted u db = record u {
    id = pf.gen_uuid db.seq;
    alternate_app_id = pos db.user_seq;
    created_at = some now;
  }

  -- INSERT … RETURNING into `users`.
  insert_row : User → Action Db User
  insert_row u db = elim (violation (inserted u db) db.users) [
    | some c ↦ (err (pg_unique c), record db { seq = suc db.seq; user_seq = suc db.user_seq })
    | none ↦ (
      ok (inserted u db),
      record db {
        users = db.users ++ inserted u db ∷ [];
        seq = suc db.seq;
        user_seq = suc db.user_seq;
      },
    )
  ]

  -- UPDATE … SET … WHERE id = u.id RETURNING, where `u` is the new row.
  write_row : User → Action Db User
  write_row u db = elim (violation u (others u.id db.users)) [
    | some c ↦ (err (pg_unique c), db)
    | none ↦ (ok u, record db { users = update_where (λ v. v.id == u.id) (λ _. u) db.users })
  ]

  abbrev pub newcomer : OAuthUserInfo → User
  newcomer info = record {
    id = [];
    alternate_app_id = pos 0;
    email = info.email;
    name = info.name;
    avatar_url = info.avatar_url;
    provider = info.provider;
    provider_id = info.provider_id;
    roles = some (str "user" ∷ []);
    is_active = true;
    created_at = none;
    last_login_at = some now;
  }

  -- The statement `upsertUserByProvider`.
  unfoldable upsert_rows : OAuthUserInfo → Action Db User
  unfolding insert_row write_row
  upsert_rows info db = elim (target info db.users) [
    | some u ↦ write_row (relinked now info u) db
    | none ↦ insert_row (newcomer info) db
  ]

  -- The error of `UpsertByProvider`: a violation of users_email_key is ErrEmailInUse.
  abbrev upsert_error : Error → Error
  upsert_error (pg_unique users_email_key) = sentinel email_in_use
  upsert_error e = wrap e

  unfoldable pub upsert_by_provider : OAuthUserInfo → Action Db User
  unfolding upsert_rows query
  upsert_by_provider info = map_err upsert_error (do query; upsert_rows info)

  unfoldable pub get_by_id : Uuid → Action Db User
  unfolding get_one query
  get_by_id id = do query; λ db. get_one (find (λ u. u.id == id) db.users) db

  unfoldable pub get_by_alternate_app_id : ℤ → Action Db User
  unfolding get_one query
  get_by_alternate_app_id app_id = do
    query
    λ db. get_one (find (λ u. u.alternate_app_id == app_id) db.users) db

  unfoldable pub list : ℤ → ℤ → Option Bool → Action Db (List UserList)
  unfolding sort_by query
  list offset limit disabled_filter = do
    query
    λ db.
        lift
          (page limit offset (
            map to_list_row (
              sort_by (λ u v. newer u.created_at v.created_at)
                (pf.scan now limit offset (keep (passes (inverted disabled_filter)) db.users)))))
          db

  -- The columns of `createUser`, with the default role.
  abbrev pub creatable : User → User
  creatable u = record u { roles = or_user u.roles; last_login_at = none }

  unfoldable pub create : User → Action Db User
  unfolding insert_row query
  create u = do query; insert_row (creatable u)

  -- The row that `updateUser` writes: identity, provider and times stay.
  abbrev pub edited : User → User → User
  edited u old = record old {
    email = u.email;
    name = u.name;
    avatar_url = u.avatar_url;
    roles = u.roles;
    is_active = u.is_active;
  }

  update_rows : Uuid → User → Action Db User
  unfolding write_row
  update_rows id u db = elim (find (λ v. v.id == id) db.users) [
    | none ↦ (err pf.not_found, db)
    | some old ↦ write_row (edited u old) db
  ]

  unfoldable pub update : Uuid → User → Action Db User
  unfolding update_rows query
  update id u = do query; update_rows id u

  abbrev pub granted : Bytes → User → User
  granted role u = record u { roles = with_role role u.roles }

  -- The statement `addUserRole`: no row where the role is there already, and none where the roles are NULL.
  role_rows : Uuid → Bytes → Action Db (Option User)
  role_rows id role db = elim (find (λ u. u.id == id) db.users) [
    | none ↦ (ok none, db)
    | some u ↦ if not (lacks role u) then (ok none, db) else (
      ok (some (granted role u)),
      record db { users = update_where (λ v. v.id == id) (λ _. granted role u) db.users },
    )
  ]

  unfoldable pub add_role : Uuid → Bytes → Action Db (Option User)
  unfolding role_rows query
  add_role id role = map_err wrap (do query; role_rows id role)

  -- DELETE FROM users, with the references of the other tables.
  delete_rows : Uuid → Action Db (Unit {0})
  delete_rows id db =
      if not (any (λ u. u.id == id) db.users)
      then (err (other 3), db)
      else if any (λ g. g.owner_id == id) db.groups
      then (err (wrap (pg_other groups_owner_fkey)), db)
      else (
        ok tt,
        record db {
          users = others id db.users;
          user_groups = keep (λ g. not (g.user_id == id)) db.user_groups;
          sessions = keep (λ s. not (s.user_id == id)) db.sessions;
          pats = keep (λ p. not (p.user_id == id)) db.pats;
        },
      )

  unfoldable pub delete : Uuid → Action Db (Unit {0})
  unfolding delete_rows query
  delete id = do map_err wrap query; delete_rows id

  unfoldable pub count : Option Bool → Action Db ℤ
  unfolding query
  count disabled_filter = do
    query
    λ db. (ok (to_int32 (pos (length (keep (passes (inverted disabled_filter)) db.users)))), db)

  unfoldable pub exist : Uuid → Db → Bool × Db
  unfolding query
  exist id db =
      let (r, db') = query db in
      (elim r [ ok _ ↦ ltb 0 (length (keep (λ u. u.id == id) db'.users)) | err _ ↦ false ], db')

  last_login_rows : Uuid → Action Db (Unit {0})
  last_login_rows id db = (
    ok tt,
    record db {
      users = update_where (λ u. u.id == id) (λ u. record u { last_login_at = some now }) db.users;
    },
  )

  unfoldable pub update_last_login : Uuid → Action Db (Unit {0})
  unfolding last_login_rows query
  update_last_login id = do query; last_login_rows id

  unfoldable pub get_user_group_ids : Uuid → Action Db (List Uuid)
  unfolding query
  get_user_group_ids id = do
    query
    λ db. (ok (map (λ g. g.group_id) (keep (λ g. g.user_id == id) db.user_groups)), db)

  abbrev pub pgx_users : UserStorage Db
  pgx_users = record {
    upsert_by_provider = upsert_by_provider;
    get_by_id = get_by_id;
    get_by_alternate_app_id = get_by_alternate_app_id;
    list = list;
    create = create;
    update = update;
    add_role = add_role;
    delete = delete;
    count = count;
    exist = exist;
    update_last_login = update_last_login;
    get_user_group_ids = get_user_group_ids;
  }
