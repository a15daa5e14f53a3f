-- ===== src/Storage/Pats/Listing.antt =====
-- `ListByUser` of pkg/auth/pat_store.go.
use mathlib.Core.List.{Perm}
use go_cloud_k8s_auth.Prelude.{Bool, ◌≤◌, List, [], ◌∷◌, ◌≡◌, ◌==◌, bytes_eq, arith, keep, ltb}
use go_cloud_k8s_auth.Prelude.Error.{ok}
use go_cloud_k8s_auth.Domain.{Uuid, Time, PersonalAccessToken}
use go_cloud_k8s_auth.Platform.{Platform}
use go_cloud_k8s_auth.Storage.Db.{Db, query, sort_by}
use go_cloud_k8s_auth.Storage.Db.Order.{IsOrdered, sort_by-perm, sort_by-IsOrdered}
use go_cloud_k8s_auth.Storage.Pats.{list_by_user}

-- No token is newer than the one before it.
abbrev pub IsNewestFirst : List PersonalAccessToken → Type 0
IsNewestFirst [] = Unit {0}
IsNewestFirst (p ∷ []) = Unit {0}
IsNewestFirst (p ∷ q ∷ ps) = (q.created_at ≤ p.created_at) × IsNewestFirst (q ∷ ps)

abbrev is_newer : PersonalAccessToken → PersonalAccessToken → Bool
is_newer p q = ltb q.created_at p.created_at

newest_first : (ps : List PersonalAccessToken) → IsOrdered is_newer ps → IsNewestFirst ps
newest_first [] h = tt
newest_first (p ∷ []) h = tt
newest_first (p ∷ q ∷ ps) h = ground (arith, newest_first (q ∷ ps))

module _ (pf : Platform) (now : Time) where
  owned : Uuid → Db → List PersonalAccessToken
  owned id db = sort_by is_newer (keep (λ p. p.user_id == id) db.pats)

  list-owned :
      (id : Uuid) (db t : Db) (rows : List PersonalAccessToken)
      → list_by_user pf now id db ≡ (ok rows, t)
      → rows ≡ owned id db
  unfolding list_by_user query owned
  list-owned id db t rows h = ground arith

  -- The list of a user's tokens holds exactly the tokens of that user, each once, revoked and expired ones
  -- as well, the newest first.
  pub listed-IsNewestFirst :
      (id : Uuid) (db t : Db) (rows : List PersonalAccessToken)
      → list_by_user pf now id db ≡ (ok rows, t)
      → Perm rows (keep (λ p. p.user_id == id) db.pats) × IsNewestFirst rows
  unfolding owned
  listed-IsNewestFirst id db t rows h =
      let e = list-owned id db t rows h in
      (
        rw e (sort_by-perm is_newer (keep (λ p. p.user_id == id) db.pats)),
        rw e (newest_first _ (sort_by-IsOrdered is_newer (keep (λ p. p.user_id == id) db.pats))),
      )
