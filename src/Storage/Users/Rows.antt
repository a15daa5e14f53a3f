-- ===== src/Storage/Users/Rows.antt =====
-- The writing statements of pkg/auth/sql.go on `users`, and the unique constraints of the table.
use go_cloud_k8s_auth.Prelude.{
  Bytes, ◌==◌, bytes_eq, bytes_beq_iff, not, some, List, [], ◌∷◌, ◌≡◌, refl, sym, subst, inl, inr,
  arith, find, find_sound, update_where, Bool-cases, Option-cases,
}
use go_cloud_k8s_auth.Prelude.Error.{wrap, Action, map_err, ◌>>◌}
use go_cloud_k8s_auth.Prelude.Keeps.{Keeps, Keeps-bind, Keeps-map_err}
use go_cloud_k8s_auth.Domain.{Uuid, Time, User, OAuthUserInfo, Session, PersonalAccessToken}
use go_cloud_k8s_auth.Platform.{Platform}
use go_cloud_k8s_auth.Storage.Db.{Db, query, violation, others}
use go_cloud_k8s_auth.Storage.Keeps.{UsersKeep, WritesKeep}
use go_cloud_k8s_auth.Storage.Users.Reads
use go_cloud_k8s_auth.Storage.UserRows.{lacks, target, relinked}
use go_cloud_k8s_auth.Storage.Users.{
  pgx_users, inserted, insert_row, write_row, upsert_rows, upsert_by_provider, role_rows,
  delete_rows, create, update, add_role, delete, update_last_login, last_login_rows, update_rows,
  granted, creatable, upsert_error, newcomer, edited,
}
use go_cloud_k8s_auth.Storage.Users.Unique.{
  IsUnique, violation-Distinct, append-IsUnique, keep-IsUnique, others-Clear, write-IsUnique,
  find-Clear, rewrite-IsUnique,
}

-- The unique constraints hold in the table.
abbrev pub UniqueUsers : Db → Type 0
UniqueUsers db = IsUnique db.users

-- As a predicate on three of the tables.
abbrev pub Uniquely : List User → List Session → List PersonalAccessToken → Type 0
Uniquely us ss ps = IsUnique us

query-Keeps : Keeps UniqueUsers query
unfolding query
query-Keeps = record { after = λ db k. ground arith }

-- A statement behind the query that may fail.
queried : {A : Type 0} (m : Action Db A) → Keeps UniqueUsers m → Keeps UniqueUsers (do query; m)
queried m h = Keeps-bind UniqueUsers query (λ _. m) query-Keeps (λ _. h)

module _ (pf : Platform) (now : Time) where
  insert_row-IsUnique :
      (u : User) (db : Db) → IsUnique db.users → IsUnique (insert_row pf now u db).1.users
  unfolding insert_row
  insert_row-IsUnique u db k = elim (Option-cases (violation (inserted pf now u db) db.users)) [
    | inl e ↦
        rw (e, insert_row)
          (append-IsUnique (inserted pf now u db) db.users (violation-Distinct _ db.users e) k)
    | inr (c, e) ↦ rw (e, insert_row) k
  ]

  write_row-IsUnique :
      (u : User) (db : Db) → IsUnique db.users → IsUnique (write_row pf now u db).1.users
  unfolding write_row
  write_row-IsUnique u db k = elim (Option-cases (violation u (others u.id db.users))) [
    | inl e ↦
        rw (e, write_row)
          (write-IsUnique u db.users (others-Clear u db.users (violation-Distinct u _ e)) k)
    | inr (c, e) ↦ rw (e, write_row) k
  ]

  upsert_rows-Keeps : (info : OAuthUserInfo) → Keeps UniqueUsers (upsert_rows pf now info)
  unfolding upsert_rows
  upsert_rows-Keeps info = record {
    after = λ db k. elim (Option-cases (target info db.users)) [
      | inl e ↦ rw (e, upsert_rows) (insert_row-IsUnique (newcomer pf now info) db k)
      | inr (u, e) ↦ rw (e, upsert_rows) (write_row-IsUnique (relinked now info u) db k)
    ];
  }

  pub upsert-Keeps : (info : OAuthUserInfo) → Keeps UniqueUsers (upsert_by_provider pf now info)
  unfolding upsert_by_provider
  upsert-Keeps info =
      Keeps-map_err UniqueUsers (upsert_error pf now) (do query; upsert_rows pf now info)
        (queried (upsert_rows pf now info) (upsert_rows-Keeps info))

  pub create-Keeps : (u : User) → Keeps UniqueUsers (create pf now u)
  unfolding create
  create-Keeps u =
      queried (insert_row pf now (creatable pf now u))
        (record { after = insert_row-IsUnique (creatable pf now u) })

  update_rows-Keeps : (id : Uuid) (u : User) → Keeps UniqueUsers (update_rows pf now id u)
  unfolding update_rows
  update_rows-Keeps id u = record {
    after = λ db k. elim (Option-cases (find (λ v. v.id == id) db.users)) [
      | inl e ↦ rw (e, update_rows) k
      | inr (old, e) ↦ rw (e, update_rows) (write_row-IsUnique (edited pf now u old) db k)
    ];
  }

  pub update-Keeps : (id : Uuid) (u : User) → Keeps UniqueUsers (update pf now id u)
  unfolding update
  update-Keeps id u = queried (update_rows pf now id u) (update_rows-Keeps id u)

  role_rows-IsUnique :
      (id : Uuid) (role : Bytes) (db : Db)
      → IsUnique db.users
      → IsUnique (role_rows pf now id role db).1.users
  unfolding role_rows
  role_rows-IsUnique id role db k = elim (Option-cases (find (λ v. v.id == id) db.users)) [
    | inl e ↦ rw (e, role_rows) k
    | inr (u, e) ↦ elim (Bool-cases (lacks role u)) [
      | inr h ↦ rw (e, h, role_rows) k
      | inl h ↦
          let id_of : id ≡ u.id = sym ((bytes_beq_iff u.id id).0 (find_sound _ db.users e)) in
          rw (e, h, role_rows)
            (subst
              (λ i. IsUnique (update_where (λ v. v.id == i) (λ _. granted pf now role u) db.users))
              (sym id_of)
              (write-IsUnique (granted pf now role u) db.users
                (find-Clear id (granted pf now role u) u db.users (refl, refl, refl, refl, refl) k
                  e)
                k))
    ]
  ]

  pub add_role-Keeps : (id : Uuid) (role : Bytes) → Keeps UniqueUsers (add_role pf now id role)
  unfolding add_role
  add_role-Keeps id role =
      Keeps-map_err UniqueUsers wrap (do query; role_rows pf now id role)
        (queried (role_rows pf now id role) (record { after = role_rows-IsUnique id role }))

  delete_rows-Keeps : (id : Uuid) → Keeps UniqueUsers (delete_rows pf now id)
  unfolding delete_rows
  delete_rows-Keeps id = record {
    after = λ db k. ground (arith, keep-IsUnique (λ v. not (v.id == id)) db.users k);
  }

  pub delete-Keeps : (id : Uuid) → Keeps UniqueUsers (delete pf now id)
  unfolding delete
  delete-Keeps id =
      Keeps-bind UniqueUsers (map_err wrap query) (λ _. delete_rows pf now id)
        (Keeps-map_err UniqueUsers wrap query query-Keeps) (λ _. delete_rows-Keeps id)

  last_login_rows-Keeps : (id : Uuid) → Keeps UniqueUsers (last_login_rows pf now id)
  unfolding last_login_rows
  last_login_rows-Keeps id = record {
    after = λ db k.
        rewrite-IsUnique (λ u. u.id == id) (λ u. record u { last_login_at = some now })
          (λ u. (refl, refl, refl, refl, refl)) db.users k;
  }

  update_last_login-Keeps : (id : Uuid) → Keeps UniqueUsers (update_last_login pf now id)
  unfolding update_last_login
  update_last_login-Keeps id = queried (last_login_rows pf now id) (last_login_rows-Keeps id)

-- The calls of the storage that write to `users`.
pub data Call : Type 0 where
  upserts : OAuthUserInfo → Call
  creates : User → Call
  updates : Uuid → User → Call
  grants : Uuid → Bytes → Call
  deletes touches : Uuid → Call

unfoldable pub call : Platform → Time × Call → Db → Db
call pf (now, upserts info) db = (upsert_by_provider pf now info db).1
call pf (now, creates u) db = (create pf now u db).1
call pf (now, updates id u) db = (update pf now id u db).1
call pf (now, grants id role) db = (add_role pf now id role db).1
call pf (now, deletes id) db = (delete pf now id db).1
call pf (now, touches id) db = (update_last_login pf now id db).1

unfoldable pub calls : Platform → List (Time × Call) → Db → Db
unfolding call
calls pf [] db = db
calls pf (c ∷ cs) db = calls pf cs (call pf c db)

call-UniqueUsers :
    (pf : Platform) (c : Time × Call) (db : Db) → UniqueUsers db → UniqueUsers (call pf c db)
unfolding call
call-UniqueUsers pf (now, upserts info) db k = (upsert-Keeps pf now info).after db k
call-UniqueUsers pf (now, creates u) db k = (create-Keeps pf now u).after db k
call-UniqueUsers pf (now, updates id u) db k = (update-Keeps pf now id u).after db k
call-UniqueUsers pf (now, grants id role) db k = (add_role-Keeps pf now id role).after db k
call-UniqueUsers pf (now, deletes id) db k = (delete-Keeps pf now id).after db k
call-UniqueUsers pf (now, touches id) db k = (update_last_login-Keeps pf now id).after db k

-- From a table where no two users share an id, a number, an e-mail or an OAuth identity, whatever sequence
-- of writing calls runs, each at its own time and with queries that may fail, no two users share
-- one afterwards.
pub calls-UniqueUsers :
    (pf : Platform) (cs : List (Time × Call)) (db : Db)
    → UniqueUsers db
    → UniqueUsers (calls pf cs db)
unfolding calls
calls-UniqueUsers pf [] db k = k
calls-UniqueUsers pf (c ∷ cs) db k =
    calls-UniqueUsers pf cs (call pf c db) (call-UniqueUsers pf c db k)

module _ (pf : Platform) (now : Time) where
  pub unique_users : UsersKeep UniqueUsers (pgx_users pf now)
  unique_users = record {
    upsert_by_provider = upsert-Keeps pf now;
    get_by_id = Reads.get_by_id-Keeps Uniquely pf now;
    get_by_alternate_app_id = Reads.get_by_alternate_app_id-Keeps Uniquely pf now;
    list = Reads.list-Keeps Uniquely pf now;
    count = Reads.count-Keeps Uniquely pf now;
    exist = Reads.exist-Keeps Uniquely pf now;
    get_user_group_ids = Reads.group_ids-Keeps Uniquely pf now;
  }

  pub unique_writes : WritesKeep UniqueUsers (pgx_users pf now)
  unique_writes = record {
    create = create-Keeps pf now;
    update = update-Keeps pf now;
    delete = delete-Keeps pf now;
  }
