-- ===== src/Storage/Sessions/Keeps.antt =====
-- pkg/auth/session_store.go: the statements, and a predicate on the tables that new rows and rewritten
-- ones do not break.
use go_cloud_k8s_auth.Prelude.{
  ℕ, Bool, true, Bytes, List, [], ◌∷◌, ◌++◌, ◌≡◌, ◌==◌, bytes_eq, any, inl, inr, arith, find,
  update_where, refl, Option-cases,
}
use go_cloud_k8s_auth.Prelude.Error.{Result, ok, err, map_err, wrap}
use go_cloud_k8s_auth.Prelude.Keeps.{Keeps, Keeps-return, Keeps-bind, Keeps-map_err}
use go_cloud_k8s_auth.Domain.{Uuid, Time, User, Session, PersonalAccessToken}
use go_cloud_k8s_auth.Platform.{Platform}
use go_cloud_k8s_auth.Prelude.Strings.{base64_raw_url}
use go_cloud_k8s_auth.Storage.Sessions.Ended.{Closing, seen-Closing, revoked-Closing}
use go_cloud_k8s_auth.Storage.Keeps.{SessionsKeep}
use go_cloud_k8s_auth.Storage.Db.{query}
use go_cloud_k8s_auth.Storage.Users.Reads.{OnTables, query-Keeps, queried}
use go_cloud_k8s_auth.Storage.Sessions.{
  pgx_sessions, new_session_token, hash_session_token, insert_rows, new_row, valid_rows, create,
  get_valid, get_valid_error, revoke, matches_valid, seen, matches_open, revoked,
}

-- The new rows, under hashes that are fresh in some sense, and the rewritten ones keep the predicate.
pub record SessionRows (Q : List User → List Session → List PersonalAccessToken → Type 0)
    (Fresh : Bytes → Type 0) : Type 0 where
  pub insert :
      (us : List User) (ss : List Session) (ps : List PersonalAccessToken) (s : Session)
      → Fresh s.token_hash
      → any (λ u. u.id == s.user_id) us ≡ true
      → Q us ss ps
      → Q us (ss ++ s ∷ []) ps
  pub change :
      (us : List User) (ss : List Session) (ps : List PersonalAccessToken) (p : Session → Bool)
      (f : Session → Session)
      → ((s : Session) → (f s).user_id ≡ s.user_id)
      → Closing f
      → Q us ss ps
      → Q us (update_where p f ss) ps

-- The outcome of the generator gives a fresh hash, or none.
abbrev pub Draws : Platform → (Bytes → Type 0) → Result Bytes → Type 0
Draws pf Fresh random =
    (b : Bytes) → random ≡ ok b → Fresh (hash_session_token pf (base64_raw_url b))

module _ (Q : List User → List Session → List PersonalAccessToken → Type 0) (Fresh : Bytes → Type 0)
    (rows : SessionRows Q Fresh) (pf : Platform) (now : Time) where
  insert-Keeps :
      (hash : Bytes) (id : Uuid) (expiry : Time) (agent ip : Bytes)
      → Fresh hash
      → Keeps (OnTables Q) (insert_rows pf now hash id expiry agent ip)
  unfolding insert_rows
  insert-Keeps hash id expiry agent ip fresh = record {
    after = λ db k. ground (
      arith,
      rows.insert db.users db.sessions db.pats (new_row pf now hash id expiry agent ip db),
    );
  }

  create-Keeps :
      (random : Result Bytes) (id : Uuid) (agent ip : Bytes) (ttl : ℕ)
      → Draws pf Fresh random
      → Keeps (OnTables Q) (create pf now random id agent ip ttl)
  unfolding create new_session_token
  create-Keeps (err e) id agent ip ttl draws = Keeps-return (OnTables Q) (err (wrap e))
  create-Keeps (ok b) id agent ip ttl draws =
      Keeps-bind (OnTables Q) _ _
        (Keeps-map_err (OnTables Q) wrap _ (
          queried Q _
            (insert-Keeps (hash_session_token pf (base64_raw_url b)) id _ agent ip (draws b refl))))
        λ _. Keeps-return (OnTables Q) (ok (base64_raw_url b))

  valid-Keeps : (hash : Bytes) → Keeps (OnTables Q) (valid_rows pf now hash)
  unfolding valid_rows
  valid-Keeps hash = record {
    after = λ db k. elim (Option-cases (find (matches_valid now hash) db.sessions)) [
      | inl e ↦ rw (e, valid_rows) k
      | inr (s, e) ↦
          rw (e, valid_rows)
            (rows.change db.users db.sessions db.pats (matches_valid now hash) (seen now)
              (λ _. refl) (seen-Closing now) k)
    ];
  }

  get_valid-Keeps : (token : Bytes) → Keeps (OnTables Q) (get_valid pf now token)
  unfolding get_valid
  get_valid-Keeps token =
      Keeps-map_err (OnTables Q) (get_valid_error pf now) _
        (queried Q _ (valid-Keeps (hash_session_token pf token)))

  revoke-Keeps : (token : Bytes) → Keeps (OnTables Q) (revoke pf now token)
  unfolding revoke
  revoke-Keeps token =
      Keeps-bind (OnTables Q) (map_err wrap query)
        (λ _ db. (
          ok tt,
          record db {
            sessions =
                update_where (matches_open (hash_session_token pf token)) (revoked now) db.sessions;
          },
        ))
        (Keeps-map_err (OnTables Q) wrap query (query-Keeps Q))
        λ _. record {
          after = λ db k.
              rows.change db.users db.sessions db.pats (matches_open (hash_session_token pf token))
                (revoked now) (λ _. refl) (revoked-Closing now) k;
        }

  pub pgx_sessions-Keep :
      (random : Result Bytes)
      → Draws pf Fresh random
      → SessionsKeep (OnTables Q) random (pgx_sessions pf now)
  pgx_sessions-Keep random draws = record {
    create = λ id agent ip ttl. create-Keeps random id agent ip ttl draws;
    get_valid = get_valid-Keeps;
    revoke = revoke-Keeps;
  }
