-- ===== src/Storage/Sessions.antt =====
-- pkg/auth/session_store.go: `PgxSessionStore`, the browser sessions of the table `sessions`.
pub mod Ended
pub mod Lifetime
pub mod Keeps
pub mod Closed
mod Tests
use go_cloud_k8s_auth.Prelude.{
  ℕ, suc, ◌+◌, Bytes, ◌==◌, bytes_eq, Bool, true, false, not, ◌&&◌, Option, none, some, List, [],
  ◌∷◌, ◌++◌, if◌then◌else◌, any, find, update_where, ltb,
}
use go_cloud_k8s_auth.Prelude.Strings.{hex, base64_raw_url}
use go_cloud_k8s_auth.Prelude.Error.{
  Error, sessions_token_hash_key, Result, ok, err, Action, sentinel, wrap, other, pg_unique,
  no_rows, session_not_found, is, pure, raise, lift, map_err, ◌>>=◌, ◌>>◌,
}
use go_cloud_k8s_auth.Domain.{Uuid, Time, User, Session}
use go_cloud_k8s_auth.Platform.{Platform}
use go_cloud_k8s_auth.Storage.{SessionStorage}
use go_cloud_k8s_auth.Storage.Db.{Db, query, to_micros}

module _ (pf : Platform) where
  -- `hashSessionToken`
  unfoldable pub hash_session_token : Bytes → Bytes
  hash_session_token raw_token = hex (pf.sha256 raw_token)

  -- `newSessionToken`: the raw token and its hash.
  unfoldable pub new_session_token : Result Bytes → Result (Bytes × Bytes)
  unfolding hash_session_token
  new_session_token (err e) = err (wrap e)
  new_session_token (ok b) = ok (base64_raw_url b, hash_session_token (base64_raw_url b))

-- `token_hash = $1 AND revoked_at IS NULL AND expires_at > NOW()`
abbrev is_open : Session → Bool
is_open s = elim s.revoked_at [ none ↦ true | some _ ↦ false ]

abbrev matches_open : Bytes → Session → Bool
matches_open hash s = s.token_hash == hash && is_open s

abbrev matches_valid : Time → Bytes → Session → Bool
matches_valid now hash s = matches_open hash s && ltb now s.expires_at

abbrev seen : Time → Session → Session
seen now s = record s { last_seen_at = some now }

abbrev revoked : Time → Session → Session
revoked now s = record s { revoked_at = some now }

module _ (pf : Platform) (now : Time) where
  -- The row of the statement `insertSession`.
  abbrev pub new_row : Bytes → Uuid → Time → Bytes → Bytes → Db → Session
  new_row hash user_id expires_at user_agent ip db = record {
    id = pf.gen_uuid db.seq;
    token_hash = hash;
    user_id = user_id;
    created_at = now;
    expires_at = to_micros expires_at;
    last_seen_at = none;
    user_agent = user_agent;
    ip = ip;
    revoked_at = none;
  }

  -- The statement, with the constraints of the table.
  insert_rows : Bytes → Uuid → Time → Bytes → Bytes → Action Db (Unit {0})
  insert_rows hash user_id expires_at user_agent ip db =
      if any (λ s. s.token_hash == hash) db.sessions
      then (err (pg_unique sessions_token_hash_key), record db { seq = suc db.seq })
      else if not (any (λ u. u.id == user_id) db.users)
      then (err (other 4), record db { seq = suc db.seq })
      else (
        ok tt,
        record db {
          sessions = db.sessions ++ new_row hash user_id expires_at user_agent ip db ∷ [];
          seq = suc db.seq;
        },
      )

  unfoldable pub create : Result Bytes → Uuid → Bytes → Bytes → ℕ → Action Db Bytes
  unfolding insert_rows query
  create random user_id user_agent ip ttl = do
    (raw_token, token_hash) ← lift (new_session_token pf random)
    map_err wrap (do query; insert_rows token_hash user_id (now + ttl) user_agent ip)
    pure raw_token

  -- The statement `getValidSession`: the row that it updates and returns.
  valid_rows : Bytes → Action Db Session
  valid_rows hash db = elim (find (matches_valid now hash) db.sessions) [
    | none ↦ (err pf.not_found, db)
    | some s ↦ (
      ok (seen now s),
      record db { sessions = update_where (matches_valid now hash) (seen now) db.sessions },
    )
  ]

  abbrev get_valid_error : Error → Error
  get_valid_error e = if is e no_rows then sentinel session_not_found else wrap e

  unfoldable pub get_valid : Bytes → Action Db Session
  unfolding valid_rows query
  get_valid raw_token =
      map_err get_valid_error (do query; valid_rows (hash_session_token pf raw_token))

  unfoldable pub revoke : Bytes → Action Db (Unit {0})
  unfolding query
  revoke raw_token = do
    map_err wrap query
    λ db. (
      ok tt,
      record db {
        sessions =
            update_where (matches_open (hash_session_token pf raw_token)) (revoked now) db.sessions;
      },
    )

  unfoldable pub revoke_all_for_user : Uuid → Action Db (Unit {0})
  unfolding query
  revoke_all_for_user user_id = do
    map_err wrap query
    λ db. (
      ok tt,
      record db {
        sessions = update_where (λ s. s.user_id == user_id && is_open s) (revoked now) db.sessions;
      },
    )

  abbrev pub pgx_sessions : SessionStorage Db
  pgx_sessions = record {
    create = create;
    get_valid = get_valid;
    revoke = revoke;
    revoke_all_for_user = revoke_all_for_user;
  }
