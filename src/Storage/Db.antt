-- ===== src/Storage/Db.antt =====
-- The tables of the schema `go_auth` (cmd/goCloudAuthServer/db/migrations) as lists of rows in the
-- order of insertion. A query may fail for reasons outside the program: `faults` holds, for each
-- query to come, such an error or none. `seq` counts the rows that were inserted or
-- refused, and `user_seq`, the sequence of `alternate_app_id`, those of users.
pub mod Order
use go_cloud_k8s_auth.Prelude.{
  ℕ, ◌*◌, ◌/◌, ◌==◌, bytes_eq, Bool, not, ◌&&◌, Option, none, some, List, [], ◌∷◌, if◌then◌else◌,
  any, keep,
}
use go_cloud_k8s_auth.Prelude.Int.{int_eq}
use go_cloud_k8s_auth.Prelude.Error.{
  Error, Constraint, users_alternate_app_id_key, users_email_key, users_pkey, unique_provider, ok,
  err, Action,
}
use go_cloud_k8s_auth.Domain.{Time, User, Group, UserGroup, Session, PersonalAccessToken, Uuid}

pub record Db : Type 0 where
  pub users : List User
  pub groups : List Group
  pub user_groups : List UserGroup
  pub sessions : List Session
  pub pats : List PersonalAccessToken
  pub seq : ℕ
  pub user_seq : ℕ
  pub faults : List (Option Error)

abbrev pub empty_db : Db
empty_db = record {
  users = [];
  groups = [];
  user_groups = [];
  sessions = [];
  pats = [];
  seq = 1;
  user_seq = 1;
  faults = [];
}

-- A Go time as a TIMESTAMPTZ keeps it: pgx drops what is below a microsecond.
unfoldable pub to_micros : Time → Time
to_micros t = t / 1000 * 1000

-- A query reaches the database, or fails.
unfoldable pub query : Action Db (Unit {0})
query db = elim db.faults [
  | [] ↦ (ok tt, db)
  | none ∷ rest ↦ (ok tt, record db { faults = rest })
  | some e ∷ rest ↦ (err e, record db { faults = rest })
]

-- The first unique constraint of `users` that a row would violate among other rows.
unfoldable pub violation : User → List User → Option Constraint
violation u others =
    if any (λ v. v.id == u.id) others
    then some users_pkey
    else if any (λ v. v.alternate_app_id == u.alternate_app_id) others
    then some users_alternate_app_id_key
    else if any (λ v. v.email == u.email) others
    then some users_email_key
    else if any (λ v. v.provider == u.provider && v.provider_id == u.provider_id) others
    then some unique_provider
    else none

abbrev pub others : Uuid → List User → List User
others id = keep λ v. not (v.id == id)

-- `ORDER BY … DESC`: `first x y` says that `x` goes before `y`.
unfoldable pub insert_sorted {ℓ} : {A : Type ℓ} → (A → A → Bool) → A → List A → List A
insert_sorted first x [] = x ∷ []
insert_sorted first x (y ∷ ys) = if first y x then y ∷ insert_sorted first x ys else x ∷ y ∷ ys

unfoldable pub sort_by {ℓ} : {A : Type ℓ} → (A → A → Bool) → List A → List A
unfolding insert_sorted
sort_by first [] = []
sort_by first (x ∷ xs) = insert_sorted first x (sort_by first xs)
