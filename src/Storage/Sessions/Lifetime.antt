-- ===== src/Storage/Sessions/Lifetime.antt =====
-- pkg/auth/session_store.go: a browser session from its creation to its end.
use go_cloud_k8s_auth.Prelude.{
  ℕ, ◌+◌, Bytes, ◌==◌, bytes_eq, bytes_beq_self, true, false, ◌&&◌, none, some, List, [], ◌∷◌, ◌++◌,
  if◌then◌else◌, any, find, update_where, ltb, ◌≡◌, ◌≢◌, refl, arith, ◌∙◌,
}
use go_cloud_k8s_auth.Prelude.Error.{
  Result, ok, err, Action, wrap, pure, map_err, ◌>>◌, sentinel, session_not_found,
}
use go_cloud_k8s_auth.Prelude.Invert.{map_err-ok, >>=-ok}
use go_cloud_k8s_auth.Prelude.Strings.{is_empty, base64_raw_url}
use go_cloud_k8s_auth.Domain.{Uuid, Time, Session}
use go_cloud_k8s_auth.Platform.{Platform, ReportsNoRows}
use go_cloud_k8s_auth.Storage.Db.{Db, query, to_micros}
use go_cloud_k8s_auth.Storage.Sessions.{
  hash_session_token, new_session_token, is_open, matches_open, matches_valid, seen, revoked,
  create, get_valid, revoke, new_row, insert_rows, valid_rows,
}
use go_cloud_k8s_auth.Storage.Sessions.Ended.{
  Call, calls, has_hash, calls-Ended, any-has_hash-update, revoked-Closing,
}

-- What `revoke` does to the rows under the hash.
pub all_revoked :
    (now : Time) (hash : Bytes) (ss : List Session)
    → any (matches_open hash) (update_where (matches_open hash) (revoked now) ss) ≡ false
all_revoked now hash [] = refl
all_revoked now hash (s ∷ ss) = ground (arith, all_revoked now hash ss)

valid_implies_open :
    (now : Time) (hash : Bytes) (ss : List Session)
    → any (matches_open hash) ss ≡ false
    → find (matches_valid now hash) ss ≡ none
valid_implies_open now hash [] h = refl
valid_implies_open now hash (s ∷ ss) h = ground (arith, valid_implies_open now hash ss)

pub closed-refused :
    (pf : Platform) (now : Time) (token : Bytes) (db : Db) (s : Session)
    → any (matches_open (hash_session_token pf token)) db.sessions ≡ false
    → (get_valid pf now token db).0 ≢ ok s
unfolding get_valid valid_rows query
closed-refused pf now token db s o h =
    ground (arith, valid_implies_open now (hash_session_token pf token) db.sessions o)

find-append :
    (now : Time) (row : Session) (ss : List Session)
    → any (has_hash row.token_hash) ss ≡ false
    → find (matches_valid now row.token_hash) (ss ++ row ∷ [])
      ≡ (if is_open row && ltb now row.expires_at then some row else none)
find-append now row [] h = ground (arith, bytes_beq_self row.token_hash)
find-append now row (s ∷ ss) h = ground (arith, find-append now row ss)

base64-is_empty : (b : ℕ) (bs : Bytes) → is_empty (base64_raw_url (b ∷ bs)) ≡ false
unfolding base64_raw_url
base64-is_empty b [] = refl
base64-is_empty b (_ ∷ []) = refl
base64-is_empty b (_ ∷ _ ∷ _) = refl

module _ (pf : Platform) where
  -- A session that exists and has been revoked is never valid again, whatever sessions are then
  -- created, looked up and revoked, at whatever times.
  pub revoked_for_good :
      (now later : Time) (token : Bytes) (db db' : Db) (cs : List (Time × Call)) (s : Session)
      → any (λ r. r.token_hash == hash_session_token pf token) db.sessions ≡ true
      → revoke pf now token db ≡ (ok tt, db')
      → (get_valid pf later token (calls pf cs db')).0 ≢ ok s
  unfolding revoke query
  revoked_for_good now later token db db' cs s taken h =
      closed-refused pf later token (calls pf cs db') s
        (calls-Ended pf hash cs db' (closed, kept)).0
    where
      hash : Bytes
      hash = hash_session_token pf token

      closed : any (matches_open hash) db'.sessions ≡ false
      closed = ground (arith, all_revoked now hash db.sessions)

      kept : any (has_hash hash) db'.sessions ≡ true
      kept = ground (
        arith,
        any-has_hash-update hash (matches_open hash) (revoked now) db.sessions
            (revoked-Closing now),
      )

  -- A new session, for a user and with a token whose hash was not in use, with the database
  -- reachable and pgxscan reporting a missing row as documented: presented without changes in
  -- between, the token is accepted strictly before the end of its lifetime, as a session of that
  -- user, and is not found from then on.
  pub valid_until :
      (b : Bytes) (user : Uuid) (agent ip token : Bytes) (ttl : ℕ) (start now : Time) (db db' : Db)
      → ReportsNoRows pf
      → db.faults ≡ []
      → any (λ s. s.token_hash == hash_session_token pf token) db.sessions ≡ false
      → create pf start (ok b) user agent ip ttl db ≡ (ok token, db')
      → (ltb now (to_micros (start + ttl)) ≡ true
          → (s : Session) × ((get_valid pf now token db').0 ≡ ok s) × (s.user_id ≡ user))
        × (ltb now (to_micros (start + ttl)) ≡ false
            → (get_valid pf now token db').0 ≡ err (sentinel session_not_found))
  unfolding create get_valid valid_rows insert_rows query new_session_token
  valid_until b user agent ip token ttl start now db db' rep calm fresh h = (
    (λ before. (seen now row, ground (arith, find-append now row db.sessions), refl)),
    (λ after. ground (arith, find-append now row db.sessions)),
  )
    where
      row : Session
      row = new_row pf start (hash_session_token pf token) user (start + ttl) agent ip db

  inserted :
      (user : Uuid) (agent ip hash : Bytes) (expiry start : Time) (db db' : Db)
      → insert_rows pf start hash user expiry agent ip db ≡ (ok tt, db')
      → (any (has_hash hash) db.sessions ≡ false)
        × (db'.sessions ≡ db.sessions ++ new_row pf start hash user expiry agent ip db ∷ [])
        × (db'.users ≡ db.users)
  unfolding insert_rows
  inserted user agent ip hash expiry start db db' h = (ground arith, ground arith, ground arith)

  queried :
      (db db' : Db)
      → query db ≡ (ok tt, db')
      → (db'.users ≡ db.users) × (db'.sessions ≡ db.sessions)
  unfolding query
  queried db db' h = (ground arith, ground arith)

  found :
      (token : Bytes) (now : Time) (row : Session) (db : Db)
      → find (matches_valid now (hash_session_token pf token)) db.sessions ≡ some row
      → db.faults ≡ []
      → (db' : Db) × (get_valid pf now token db ≡ (ok (seen now row), db'))
        × (db'.users ≡ db.users)
        × (db'.faults ≡ [])
  unfolding get_valid valid_rows query
  found token now row db h calm = (
    record db {
      sessions =
          update_where (matches_valid now (hash_session_token pf token)) (seen now) db.sessions;
    },
    ground arith,
    refl,
    calm,
  )

  pub create-token :
      (b : ℕ) (bs : Bytes) (user : Uuid) (agent ip token : Bytes) (ttl : ℕ) (start : Time)
      (db db' : Db)
      → create pf start (ok (b ∷ bs)) user agent ip ttl db ≡ (ok token, db')
      → is_empty token ≡ false
  unfolding create new_session_token
  create-token b bs user agent ip token ttl start db db' h =
      let insert : Action Db (Unit {0}) =
        insert_rows pf start (hash_session_token pf (base64_raw_url (b ∷ bs))) user (start + ttl)
          agent ip in
      let (_, db₁, i, last) =
        >>=-ok (map_err wrap (query >> insert)) (λ _. pure (base64_raw_url (b ∷ bs))) db h in
      ground (arith, base64-is_empty b bs)

  -- A session that has just been made, presented within its lifetime while the database is reachable.
  pub created_valid :
      (random : Result Bytes) (user : Uuid) (agent ip token : Bytes) (ttl : ℕ) (start now : Time)
      (db db' : Db)
      → create pf start random user agent ip ttl db ≡ (ok token, db')
      → db'.faults ≡ []
      → ltb now (to_micros (start + ttl)) ≡ true
      → (s : Session) × (db'' : Db) × (get_valid pf now token db' ≡ (ok s, db''))
        × (s.user_id ≡ user)
        × (db'.users ≡ db.users)
        × (db''.users ≡ db.users)
        × (db''.faults ≡ [])
  unfolding create new_session_token
  created_valid (err e) user agent ip token ttl start now db db' h calm before = cc
  created_valid (ok b) user agent ip token ttl start now db db' h calm before =
      let hash : Bytes = hash_session_token pf (base64_raw_url b) in
      let insert : Action Db (Unit {0}) = insert_rows pf start hash user (start + ttl) agent ip in
      let (_, db₁, i, last) =
        >>=-ok (map_err wrap (query >> insert)) (λ _. pure (base64_raw_url b)) db h in
      let (_, db₀, q, k) = >>=-ok query (λ _. insert) db (map_err-ok wrap (query >> insert) db i) in
      let same : (base64_raw_url b ≡ token) × (db₁ ≡ db') = (ground arith, ground arith) in
      let (fresh, rows, users) = inserted user agent ip hash (start + ttl) start db₀ db₁ k in
      let row : Session = new_row pf start hash user (start + ttl) agent ip db₀ in
      let hit : find (matches_valid now (hash_session_token pf token)) db'.sessions ≡ some row =
        ground (arith, find-append now row db₀.sessions) in
      let (db'', g, u, c) = found token now row db' hit calm in
      let kept : db'.users ≡ db.users = ground (arith, queried db db₀) in
      (seen now row, db'', g, refl, kept, u ∙ kept, c)
