-- ===== src/Storage/Users/Admins.antt =====
-- The statements of pkg/auth/sql.go that a login runs, and the admin role.
use go_cloud_k8s_auth.Prelude.{
  Bool, true, false, ◌&&◌, ◌==◌, bytes_eq, bytes_beq, bytes_beq_iff, some, List, [], ◌∷◌, ◌≡◌, refl,
  subst, inl, inr, arith, any, find, All, Bool-cases, Option-cases,
}
use go_cloud_k8s_auth.Prelude.Keeps.{Keeps, Keeps-map_err}
use go_cloud_k8s_auth.Rbac.{has_role}
use go_cloud_k8s_auth.Domain.{
  Uuid, Time, User, OAuthUserInfo, Session, PersonalAccessToken, admin_role,
}
use go_cloud_k8s_auth.Platform.{Platform}
use go_cloud_k8s_auth.Storage.Keeps.{UsersKeep}
use go_cloud_k8s_auth.Storage.Owned.{All-append, All-update}
use go_cloud_k8s_auth.Storage.Sessions.Keeps.{SessionRows}
use go_cloud_k8s_auth.Storage.Pats.Keeps.{PatRows}
use go_cloud_k8s_auth.Storage.Db.{Db, violation, others}
use go_cloud_k8s_auth.Storage.Users.Reads
use go_cloud_k8s_auth.Storage.Users.Reads.{OnTables, queried}
use go_cloud_k8s_auth.Storage.UserRows.{target, same_identity, same_email, relinked}
use go_cloud_k8s_auth.Storage.Users.{
  pgx_users, inserted, insert_row, write_row, upsert_rows, upsert_by_provider, upsert_error,
  newcomer,
}

-- The user with the id was an administrator in a table.
abbrev pub WasAdmin : List User → Uuid → Type 0
WasAdmin before id = any (λ v. v.id == id && has_role v.roles admin_role) before ≡ true

-- A user is an administrator only if he was one before.
abbrev pub IsNoNewAdmin : List User → User → Type 0
IsNoNewAdmin before u = has_role u.roles admin_role ≡ true → WasAdmin before u.id

abbrev pub NoNewAdmins : List User → List User → List Session → List PersonalAccessToken → Type 0
NoNewAdmins before us ss ps = All (IsNoNewAdmin before) us

find-All :
    {A : Type 0} (P : A → Type 0) (p : A → Bool) (xs : List A) {x : A}
    → All P xs
    → find p xs ≡ some x
    → P x
find-All P p [] a h = cc
find-All P p (y ∷ xs) {x} (k, a) h = elim (Bool-cases (p y)) [
  | inl e ↦ let same : y ≡ x = ground arith in subst P same k
  | inr e ↦ find-All P p xs a (ground arith)
]

module _ (before : List User) where
  abbrev Kept : Db → Type 0
  Kept = OnTables (NoNewAdmins before)

  target-All :
      (info : OAuthUserInfo) (us : List User) {u : User}
      → All (IsNoNewAdmin before) us
      → target info us ≡ some u
      → IsNoNewAdmin before u
  unfolding target
  target-All info us {u} a h = elim (Option-cases (find (same_identity info) us)) [
    | inl e ↦ find-All (IsNoNewAdmin before) (same_email info) us {x = u} a (ground arith)
    | inr (v, e) ↦ find-All (IsNoNewAdmin before) (same_identity info) us {x = u} a (ground arith)
  ]

  module _ (pf : Platform) (now : Time) where
    insert_row-Keeps :
        (u : User) → has_role u.roles admin_role ≡ false → Keeps Kept (insert_row pf now u)
    unfolding insert_row
    insert_row-Keeps u h = record {
      after = λ db k. elim (Option-cases (violation (inserted pf now u db) db.users)) [
        | inl e ↦
            rw (e, insert_row)
              (All-append (IsNoNewAdmin before) db.users (inserted pf now u db) k
                (λ g. ground arith))
        | inr (c, e) ↦ rw (e, insert_row) k
      ];
    }

    write_row-Keeps : (u : User) → IsNoNewAdmin before u → Keeps Kept (write_row pf now u)
    unfolding write_row
    write_row-Keeps u h = record {
      after = λ db k. elim (Option-cases (violation u (others u.id db.users))) [
        | inl e ↦
            rw (e, write_row)
              (All-update (IsNoNewAdmin before) (λ v. v.id == u.id) (λ _. u) db.users (λ v _. h) k)
        | inr (c, e) ↦ rw (e, write_row) k
      ];
    }

    upsert_rows-Keeps : (info : OAuthUserInfo) → Keeps Kept (upsert_rows pf now info)
    unfolding upsert_rows has_role bytes_beq
    upsert_rows-Keeps info = record {
      after = λ db k. elim (Option-cases (target info db.users)) [
        | inl e ↦ rw (e, upsert_rows) ((insert_row-Keeps (newcomer pf now info) refl).after db k)
        | inr (u, e) ↦
            rw (e, upsert_rows)
              ((write_row-Keeps (relinked now info u) (target-All info db.users k e)).after db k)
      ];
    }

    upsert-Keeps : (info : OAuthUserInfo) → Keeps Kept (upsert_by_provider pf now info)
    unfolding upsert_by_provider
    upsert-Keeps info =
        Keeps-map_err Kept (upsert_error pf now) _
          (queried (NoNewAdmins before) _ (upsert_rows-Keeps info))

    pub admins_users : UsersKeep Kept (pgx_users pf now)
    admins_users = record {
      upsert_by_provider = upsert-Keeps;
      get_by_id = Reads.get_by_id-Keeps (NoNewAdmins before) pf now;
      get_by_alternate_app_id = Reads.get_by_alternate_app_id-Keeps (NoNewAdmins before) pf now;
      list = Reads.list-Keeps (NoNewAdmins before) pf now;
      count = Reads.count-Keeps (NoNewAdmins before) pf now;
      exist = Reads.exist-Keeps (NoNewAdmins before) pf now;
      get_user_group_ids = Reads.group_ids-Keeps (NoNewAdmins before) pf now;
    }

-- In the table itself.
pub NoNewAdmins-self :
    (before us : List User)
    → ((id : Uuid) → WasAdmin us id → WasAdmin before id)
    → All (IsNoNewAdmin before) us
NoNewAdmins-self before [] h = tt
NoNewAdmins-self before (u ∷ us) h = (
  λ g. h u.id (ground (arith, bytes_beq_iff u.id u.id)),
  NoNewAdmins-self before us (λ id k. h id (ground arith)),
)

-- A predicate on `users` alone.
pub UsersOnly-SessionRows :
    (R : List User → Type 0) → SessionRows (λ us ss ps. R us) (λ _. Unit {0})
UsersOnly-SessionRows R = record {
  insert = λ us ss ps s _ h k. k;
  change = λ us ss ps p f h _ k. k;
}

pub UsersOnly-PatRows : (R : List User → Type 0) → PatRows (λ us ss ps. R us)
UsersOnly-PatRows R = record { insert = λ us ss ps s h k. k; change = λ us ss ps p f h k. k }
