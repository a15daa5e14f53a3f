-- ===== src/Storage/Pats/Keeps.antt =====
-- pkg/auth/pat_store.go: the statements, and a predicate on the tables that new rows and rewritten ones
-- do not break.
use go_cloud_k8s_auth.Prelude.{
  Bool, true, Bytes, Option, some, List, [], ◌∷◌, ◌++◌, ◌≡◌, ◌==◌, bytes_eq, any, inl, inr, arith,
  update_where, refl, Bool-cases,
}
use go_cloud_k8s_auth.Prelude.Error.{ok, map_err, wrap}
use go_cloud_k8s_auth.Prelude.Keeps.{Keeps, Keeps-bind, Keeps-map_err}
use go_cloud_k8s_auth.Domain.{Uuid, Time, User, Session, PersonalAccessToken}
use go_cloud_k8s_auth.Platform.{Platform}
use go_cloud_k8s_auth.Storage.Keeps.{PatsKeep}
use go_cloud_k8s_auth.Storage.Db.{query}
use go_cloud_k8s_auth.Storage.Users.Reads.{OnTables, query-Keeps, queried}
use go_cloud_k8s_auth.Storage.Pats.{
  pgx_pats, insert_rows, new_row, hash_rows, create, get_by_hash, get_by_hash_error, list_by_user,
  revoke, revoke_rows, revocable, revoked, touch_last_used,
}

-- The new rows and the rewritten ones keep the predicate.
pub record PatRows (Q : List User → List Session → List PersonalAccessToken → Type 0) : Type 0 where
  pub insert :
      (us : List User) (ss : List Session) (ps : List PersonalAccessToken) (p : PersonalAccessToken)
      → any (λ u. u.id == p.user_id) us ≡ true
      → Q us ss ps
      → Q us ss (ps ++ p ∷ [])
  pub change :
      (us : List User) (ss : List Session) (ps : List PersonalAccessToken)
      (test : PersonalAccessToken → Bool) (f : PersonalAccessToken → PersonalAccessToken)
      → ((p : PersonalAccessToken) → (f p).user_id ≡ p.user_id)
      → Q us ss ps
      → Q us ss (update_where test f ps)

module _ (Q : List User → List Session → List PersonalAccessToken → Type 0) (rows : PatRows Q)
    (pf : Platform) (now : Time) where
  insert-Keeps :
      (id : Uuid) (hash prefix name : Bytes) (scopes : List Bytes) (expiry : Option Time)
      → Keeps (OnTables Q) (insert_rows pf now id hash prefix name scopes expiry)
  unfolding insert_rows
  insert-Keeps id hash prefix name scopes expiry = record {
    after = λ db k. ground (
      arith,
      rows.insert db.users db.sessions db.pats
          (new_row pf now id hash prefix name scopes expiry db),
    );
  }

  create-Keeps :
      (id : Uuid) (hash prefix name : Bytes) (scopes : List Bytes) (expiry : Option Time)
      → Keeps (OnTables Q) (create pf now id hash prefix name scopes expiry)
  unfolding create
  create-Keeps id hash prefix name scopes expiry =
      Keeps-map_err (OnTables Q) wrap _
        (queried Q _ (insert-Keeps id hash prefix name scopes expiry))

  hash-Keeps : (hash : Bytes) → Keeps (OnTables Q) (hash_rows pf now hash)
  unfolding hash_rows
  hash-Keeps hash = record { after = λ db k. ground (arith, k) }

  get_by_hash-Keeps : (hash : Bytes) → Keeps (OnTables Q) (get_by_hash pf now hash)
  unfolding get_by_hash
  get_by_hash-Keeps hash =
      Keeps-map_err (OnTables Q) (get_by_hash_error pf now) _ (queried Q _ (hash-Keeps hash))

  list-Keeps : (id : Uuid) → Keeps (OnTables Q) (list_by_user pf now id)
  unfolding list_by_user query
  list-Keeps id = record { after = λ db k. ground (arith, (query-Keeps Q).after db k) }

  revoke_rows-Keeps : (id user_id : Uuid) → Keeps (OnTables Q) (revoke_rows pf now id user_id)
  unfolding revoke_rows
  revoke_rows-Keeps id user_id = record {
    after = λ db k. elim (Bool-cases (any (revocable pf now id user_id) db.pats)) [
      | inl e ↦
          rw (e, revoke_rows)
            (rows.change db.users db.sessions db.pats (revocable pf now id user_id) (revoked pf now)
              (λ _. refl) k)
      | inr e ↦ rw (e, revoke_rows) k
    ];
  }

  revoke-Keeps : (id user_id : Uuid) → Keeps (OnTables Q) (revoke pf now id user_id)
  unfolding revoke
  revoke-Keeps id user_id =
      Keeps-bind (OnTables Q) (map_err wrap query) _
        (Keeps-map_err (OnTables Q) wrap query (query-Keeps Q)) λ _. revoke_rows-Keeps id user_id

  touch-Keeps : (id : Uuid) → Keeps (OnTables Q) (touch_last_used pf now id)
  unfolding touch_last_used
  touch-Keeps id =
      Keeps-bind (OnTables Q) (map_err wrap query)
        (λ _ db. (
          ok tt,
          record db {
            pats =
                update_where (λ p. p.id == id) (λ p. record p { last_used_at = some now }) db.pats;
          },
        ))
        (Keeps-map_err (OnTables Q) wrap query (query-Keeps Q))
        λ _. record {
          after = λ db k.
              rows.change db.users db.sessions db.pats (λ p. p.id == id)
                (λ p. record p { last_used_at = some now }) (λ _. refl) k;
        }

  pub pgx_pats-Keep : PatsKeep (OnTables Q) (pgx_pats pf now)
  pgx_pats-Keep = record {
    create = create-Keeps;
    get_by_hash = get_by_hash-Keeps;
    list_by_user = list-Keeps;
    revoke = revoke-Keeps;
    touch_last_used = touch-Keeps;
  }
