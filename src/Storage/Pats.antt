-- ===== src/Storage/Pats.antt =====
-- pkg/auth/pat_store.go: `PgxPatStore`, the personal access tokens.
pub mod Lookup
pub mod Listing
pub mod Keeps
pub mod Revocation
use go_cloud_k8s_auth.Prelude.{
  ℕ, suc, ◌+◌, Bytes, ◌==◌, bytes_eq, Bool, true, false, not, ◌&&◌, ◌||◌, Option, none, some, List,
  [], ◌∷◌, ◌++◌, if◌then◌else◌, any, all, find, keep, length, update_where, ltb, leb, eqb,
}
use go_cloud_k8s_auth.Prelude.Error.{
  Error, pats_token_hash_key, pats_name_check, Result, ok, err, Action, sentinel, wrap, other,
  pg_unique, pg_other, no_rows, pat_not_found, is, pure, raise, lift, map_err, ◌>>=◌, ◌>>◌,
}
use go_cloud_k8s_auth.Domain.{Uuid, Time, User, PersonalAccessToken}
use go_cloud_k8s_auth.Platform.{Platform}
use go_cloud_k8s_auth.Storage.{PatStorage}
use go_cloud_k8s_auth.Storage.Db.{Db, query, to_micros, sort_by}

-- `char_length`: the bytes that do not continue a character of UTF-8.
abbrev char_length : Bytes → ℕ
char_length s = length (keep (λ c. ltb c 128 || leb 192 c) s)

-- The check on `name`: not blank, at most a hundred characters.
unfoldable pub name_check : Bytes → Bool
name_check name = not (all (λ c. eqb c 32) name) && leb (char_length name) 100

abbrev pub not_revoked : PersonalAccessToken → Bool
not_revoked p = elim p.revoked_at [ none ↦ true | some _ ↦ false ]

abbrev pub stored_end : Option Time → Option Time
stored_end none = none
stored_end (some t) = some (to_micros t)

module _ (pf : Platform) (now : Time) where
  -- The row of the statement `insertPat`.
  abbrev pub new_row :
      Uuid → Bytes → Bytes → Bytes → List Bytes → Option Time → Db → PersonalAccessToken
  new_row user_id hash prefix name scopes expires_at db = record {
    id = pf.gen_uuid db.seq;
    user_id = user_id;
    token_hash = hash;
    prefix = prefix;
    name = name;
    scopes = scopes;
    created_at = now;
    expires_at = stored_end expires_at;
    last_used_at = none;
    revoked_at = none;
  }

  -- The statement, with the constraints of the table.
  insert_rows :
      Uuid → Bytes → Bytes → Bytes → List Bytes → Option Time → Action Db PersonalAccessToken
  insert_rows user_id hash prefix name scopes expires_at db =
      if not (name_check name)
      then (err (pg_other pats_name_check), record db { seq = suc db.seq })
      else if any (λ p. p.token_hash == hash) db.pats
      then (err (pg_unique pats_token_hash_key), record db { seq = suc db.seq })
      else if not (any (λ u. u.id == user_id) db.users)
      then (err (other 5), record db { seq = suc db.seq })
      else let row = new_row user_id hash prefix name scopes expires_at db in
        (ok row, record db { pats = db.pats ++ row ∷ []; seq = suc db.seq })

  unfoldable pub create :
      Uuid → Bytes → Bytes → Bytes → List Bytes → Option Time → Action Db PersonalAccessToken
  unfolding insert_rows query
  create user_id hash prefix name scopes expires_at =
      map_err wrap (do query; insert_rows user_id hash prefix name scopes expires_at)

  hash_rows : Bytes → Action Db PersonalAccessToken
  hash_rows hash db = elim (find (λ p. p.token_hash == hash) db.pats) [
    | none ↦ (err pf.not_found, db)
    | some p ↦ (ok p, db)
  ]

  abbrev get_by_hash_error : Error → Error
  get_by_hash_error e = if is e no_rows then sentinel pat_not_found else wrap e

  unfoldable pub get_by_hash : Bytes → Action Db PersonalAccessToken
  unfolding hash_rows query
  get_by_hash hash = map_err get_by_hash_error (do query; hash_rows hash)

  unfoldable pub list_by_user : Uuid → Action Db (List PersonalAccessToken)
  unfolding sort_by query
  list_by_user user_id = do
    map_err wrap query
    λ db. (
      ok (
          sort_by (λ p q. ltb q.created_at p.created_at)
            (keep (λ p. p.user_id == user_id) db.pats)),
      db,
    )

  abbrev pub revocable : Uuid → Uuid → PersonalAccessToken → Bool
  revocable id user_id p = p.id == id && p.user_id == user_id && not_revoked p

  abbrev pub revoked : PersonalAccessToken → PersonalAccessToken
  revoked p = record p { revoked_at = some now }

  -- The statement `revokePat`, and ErrPatNotFound where it affects no row.
  revoke_rows : Uuid → Uuid → Action Db (Unit {0})
  revoke_rows id user_id db =
      if any (revocable id user_id) db.pats
      then (ok tt, record db { pats = update_where (revocable id user_id) revoked db.pats })
      else (err (sentinel pat_not_found), db)

  unfoldable pub revoke : Uuid → Uuid → Action Db (Unit {0})
  unfolding revoke_rows query
  revoke id user_id = do map_err wrap query; revoke_rows id user_id

  unfoldable pub touch_last_used : Uuid → Action Db (Unit {0})
  unfolding query
  touch_last_used id = do
    map_err wrap query
    λ db. (
      ok tt,
      record db {
        pats = update_where (λ p. p.id == id) (λ p. record p { last_used_at = some now }) db.pats;
      },
    )

  abbrev pub pgx_pats : PatStorage Db
  pgx_pats = record {
    create = create;
    get_by_hash = get_by_hash;
    list_by_user = list_by_user;
    revoke = revoke;
    touch_last_used = touch_last_used;
  }
