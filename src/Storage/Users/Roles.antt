-- ===== src/Storage/Users/Roles.antt =====
-- The row behind the result of `UpsertByProvider`, `Create` and `AddRole` of pkg/auth/storage_postgres.go.
use go_cloud_k8s_auth.Prelude.{
  Bytes, ◌==◌, bytes_eq, bytes_beq, bytes_beq_iff, bytes_beq_self, Bool, true, Option, none, some,
  List, [], ◌∷◌, ◌++◌, ◌≡◌, ◌⊎◌, refl, ◌∙◌, inl, inr, arith, find, any-false, update_where,
  Bool-cases, Option-cases,
}
use go_cloud_k8s_auth.Prelude.Error.{ok, wrap, ◌>>◌}
use go_cloud_k8s_auth.Prelude.Invert.{map_err-ok, >>=-ok}
use go_cloud_k8s_auth.Domain.{Uuid, Time, User, OAuthUserInfo}
use go_cloud_k8s_auth.Platform.{Platform}
use go_cloud_k8s_auth.Rbac.{has_role}
use go_cloud_k8s_auth.Storage.{UserStorageLaws}
use go_cloud_k8s_auth.Storage.Db.{Db, query, violation}
use go_cloud_k8s_auth.Storage.UserRows.{target, relinked, same_identity, same_email}
use go_cloud_k8s_auth.Storage.Users.{
  insert_row, write_row, upsert_rows, upsert_by_provider, newcomer, inserted, create, creatable,
  add_role, role_rows, update, update_rows, granted, upsert_error, pgx_users,
}

abbrev pub by_id : Uuid → List User → Option User
by_id id = find λ v. v.id == id

by_id-append :
    (u : User) (us : List User) → by_id u.id us ≡ none → by_id u.id (us ++ u ∷ []) ≡ some u
by_id-append u [] h = ground (arith, bytes_beq_self u.id)
by_id-append u (x ∷ us) h = ground (arith, by_id-append u us)

violation-fresh : (u : User) (us : List User) → violation u us ≡ none → by_id u.id us ≡ none
unfolding violation
violation-fresh u us h = ground (arith, any-false (λ v. v.id == u.id) us)

by_id-write :
    (id : Uuid) (u v : User) (us : List User)
    → u.id ≡ id
    → by_id id us ≡ some v
    → by_id id (update_where (λ w. w.id == id) (λ _. u) us) ≡ some u
by_id-write id u v [] e h = cc
by_id-write id u v (x ∷ us) e h = ground (arith, bytes_beq_iff u.id id, by_id-write id u v us)

pub by_id-id : (id : Uuid) (u : User) (us : List User) → by_id id us ≡ some u → u.id ≡ id
by_id-id id u [] h = cc
by_id-id id u (x ∷ us) h = ground (arith, bytes_beq_iff x.id id, by_id-id id u us)

-- Any row of the table is found under its id, as itself or as an earlier row.
by_id-find :
    (p : User → Bool) (us : List User) (v : User)
    → find p us ≡ some v
    → (w : User) × (by_id v.id us ≡ some w)
by_id-find p [] v h = cc
by_id-find p (x ∷ us) v h = elim (Bool-cases (bytes_beq x.id v.id)) [
  | inl e ↦ (x, rw e)
  | inr e ↦ elim (Bool-cases (p x)) [
    | inl q ↦ let same : x ≡ v = ground arith in ground (arith, bytes_beq_iff x.id v.id)
    | inr q ↦ let (w, k) = by_id-find p us v (rw q at h) in (w, rw e k)
  ]
]

target-by_id :
    (info : OAuthUserInfo) (us : List User) (v : User)
    → target info us ≡ some v
    → (w : User) × (by_id v.id us ≡ some w)
unfolding target
target-by_id info us v h = elim (Option-cases (find (same_identity info) us)) [
  | inl e ↦ by_id-find (same_email info) us v (rw (e, target) at h)
  | inr (u, e) ↦ by_id-find (same_identity info) us v (e ∙ (rw (e, target) at h))
]

module _ (pf : Platform) (now : Time) where
  by_id-insert_row :
      (n u : User) (db db' : Db)
      → insert_row pf now n db ≡ (ok u, db')
      → by_id u.id db'.users ≡ some u
  unfolding insert_row
  by_id-insert_row n u db db' h = ground (
    arith,
    violation-fresh (inserted pf now n db) db.users,
    by_id-append (inserted pf now n db) db.users,
  )

  by_id-write_row :
      (n u v : User) (db db' : Db)
      → by_id n.id db.users ≡ some v
      → write_row pf now n db ≡ (ok u, db')
      → by_id u.id db'.users ≡ some u
  unfolding write_row
  by_id-write_row n u v db db' k h = ground (arith, by_id-write n.id n v db.users refl k)

  query-users : (db db' : Db) → query db ≡ (ok tt, db') → db'.users ≡ db.users
  unfolding query
  query-users db db' h = ground arith

  upsert_rows-by_id :
      (info : OAuthUserInfo) (u : User) (db db' : Db)
      → upsert_rows pf now info db ≡ (ok u, db')
      → by_id u.id db'.users ≡ some u
  unfolding upsert_rows
  upsert_rows-by_id info u db db' h = elim (Option-cases (target info db.users)) [
    | inl e ↦ by_id-insert_row (newcomer pf now info) u db db' (rw (e, upsert_rows) at h)
    | inr (v, e) ↦
        let (w, k) = target-by_id info db.users v e in
        by_id-write_row (relinked now info v) u w db db' k (rw (e, upsert_rows) at h)
  ]

  -- The user that a login returns is the row that the table now holds under its id.
  pub upsert-by_id :
      (info : OAuthUserInfo) (u : User) (db db' : Db)
      → upsert_by_provider pf now info db ≡ (ok u, db')
      → by_id u.id db'.users ≡ some u
  unfolding upsert_by_provider
  upsert-by_id info u db db' h =
      let (_, db₁, _, k) =
        >>=-ok query (λ _. upsert_rows pf now info) db
          (map_err-ok (upsert_error pf now) (query >> upsert_rows pf now info) db h) in
      upsert_rows-by_id info u db₁ db' k

  pub create-by_id :
      (n u : User) (db db' : Db)
      → create pf now n db ≡ (ok u, db')
      → (by_id u.id db'.users ≡ some u)
        × (u.is_active ≡ n.is_active)
        × (u.email ≡ n.email)
        × (u.name ≡ n.name)
  unfolding create insert_row
  create-by_id n u db db' h =
      let (_, db₁, _, k) = >>=-ok query (λ _. insert_row pf now (creatable pf now n)) db h in
      (by_id-insert_row (creatable pf now n) u db₁ db' k, ground arith, ground arith, ground arith)

  add_role-granted :
      (id : Uuid) (role : Bytes) (u w : User) (db db' : Db)
      → by_id id db.users ≡ some u
      → add_role pf now id role db ≡ (ok (some w), db')
      → w ≡ granted pf now role u
  unfolding add_role role_rows query
  add_role-granted id role u w db db' k h = ground arith

  add_role-none :
      (id : Uuid) (role : Bytes) (u : User) (db db' : Db)
      → by_id id db.users ≡ some u
      → add_role pf now id role db ≡ (ok none, db')
      → (has_role u.roles role ≡ true) ⊎ (u.roles ≡ none)
  unfolding add_role role_rows query
  add_role-none id role u db db' k h = elim (Option-cases u.roles) [
    | inl e ↦ inr e
    | inr (rs, e) ↦ inl (ground arith)
  ]

  role_rows-by_id :
      (role : Bytes) (u : User) (o : Option User) (db db' : Db)
      → by_id u.id db.users ≡ some u
      → role_rows pf now u.id role db ≡ (ok o, db')
      → by_id u.id db'.users ≡ some (elim o [ none ↦ u | some w ↦ w ])
  unfolding role_rows
  role_rows-by_id role u o db db' k h =
      ground (arith, by_id-write u.id (granted pf now role u) u db.users refl k)

  -- After a role has been granted, or was there already, the table holds the user that is returned.
  pub add_role-by_id :
      (role : Bytes) (u : User) (o : Option User) (db db' : Db)
      → by_id u.id db.users ≡ some u
      → add_role pf now u.id role db ≡ (ok o, db')
      → by_id u.id db'.users ≡ some (elim o [ none ↦ u | some w ↦ w ])
  unfolding add_role
  add_role-by_id role u o db db' k h =
      let (_, db₁, e, l) =
        >>=-ok query (λ _. role_rows pf now u.id role) db
          (map_err-ok wrap (query >> role_rows pf now u.id role) db h) in
      role_rows-by_id role u o db₁ db' (rw (query-users db db₁ e) k) l

  -- Where the roles are NULL, no role is granted.
  pub add_role-unset :
      (role : Bytes) (u : User) (o : Option User) (db db' : Db)
      → by_id u.id db.users ≡ some u
      → u.roles ≡ none
      → add_role pf now u.id role db ≡ (ok o, db')
      → o ≡ none
  unfolding add_role role_rows query
  add_role-unset role u o db db' k e h = ground arith

  -- An update writes the roles that it is given.
  pub update-roles :
      (id : Uuid) (request u : User) (db db' : Db)
      → update pf now id request db ≡ (ok u, db')
      → u.roles ≡ request.roles
  unfolding update update_rows write_row query
  update-roles id request u db db' h = ground arith

  -- The PostgreSQL storage keeps the contract on which logins rest: a role granted to the user
  -- that an upsert has just returned is appended to that user's roles and changes neither e-mail
  -- nor status, and a role that is not granted was there already, unless the user's roles are NULL.
  pub pgx_users-UserStorageLaws : UserStorageLaws (pgx_users pf now)
  pgx_users-UserStorageLaws = record {
    grant_after_login = λ info role db db₁ db₂ u w h k.
        let e = add_role-granted u.id role u w db₁ db₂ (upsert-by_id info u db db₁ h) k in
        rw e (refl, refl, refl);
    no_grant_after_login = λ info role db db₁ db₂ u h k.
        add_role-none u.id role u db₁ db₂ (upsert-by_id info u db db₁ h) k;
  }
