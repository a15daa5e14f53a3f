-- ===== src/Storage/Pats/Lookup.antt =====
-- pkg/auth/pat_store.go: `Create` and then `GetByHash`.
use go_cloud_k8s_auth.Prelude.{
  Bytes, ◌==◌, bytes_eq, bytes_beq_iff, false, Option, none, some, List, [], ◌∷◌, ◌++◌, any, find,
  ◌≡◌, arith,
}
use go_cloud_k8s_auth.Prelude.Error.{ok}
use go_cloud_k8s_auth.Domain.{Uuid, Time, PersonalAccessToken}
use go_cloud_k8s_auth.Platform.{Platform}
use go_cloud_k8s_auth.Storage.Db.{Db, query}
use go_cloud_k8s_auth.Storage.Pats.{stored_end, create, insert_rows, get_by_hash, hash_rows}

find-append :
    (hash : Bytes) (p : PersonalAccessToken) (ps : List PersonalAccessToken)
    → p.token_hash ≡ hash
    → any (λ q. q.token_hash == hash) ps ≡ false
    → find (λ q. q.token_hash == hash) (ps ++ p ∷ []) ≡ some p
find-append hash p [] e h = ground (arith, bytes_beq_iff p.token_hash hash)
find-append hash p (q ∷ ps) e h = ground (arith, find-append hash p ps)

-- The row that is there after a successful insert, and what it says.
abbrev pub IsStored :
    Platform
    → Time
    → Uuid
    → Bytes
    → List Bytes
    → Option Time
    → PersonalAccessToken
    → Db
    → Db
    → Type 0
IsStored pf later user hash scopes expires p db db' =
    (get_by_hash pf later hash db' ≡ (ok p, db'))
    × (p.user_id ≡ user)
    × (p.scopes ≡ scopes)
    × (p.expires_at ≡ stored_end expires)
    × (p.revoked_at ≡ none)
    × (db'.users ≡ db.users)
    × (db'.faults ≡ [])

pub create-IsStored :
    (pf : Platform) (now later : Time) (user : Uuid) (hash prefix name : Bytes)
    (scopes : List Bytes) (expires : Option Time) (p : PersonalAccessToken) (db db' : Db)
    → db.faults ≡ []
    → any (λ q. q.token_hash == hash) db.pats ≡ false
    → create pf now user hash prefix name scopes expires db ≡ (ok p, db')
    → IsStored pf later user hash scopes expires p db db'
unfolding create insert_rows get_by_hash hash_rows query
create-IsStored pf now later user hash prefix name scopes expires p db db' calm fresh h =
    let own : p.token_hash ≡ hash = ground arith in
    let rows : db'.pats ≡ db.pats ++ p ∷ [] = ground arith in
    (
      found own rows,
      ground arith,
      ground arith,
      ground arith,
      ground arith,
      ground arith,
      ground arith,
    )
  where
    found :
        p.token_hash ≡ hash
        → db'.pats ≡ db.pats ++ p ∷ []
        → get_by_hash pf later hash db' ≡ (ok p, db')
    found own rows = ground (arith, find-append hash p db.pats own fresh)
