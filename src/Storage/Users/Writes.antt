-- ===== src/Storage/Users/Writes.antt =====
-- The writing statements of pkg/auth/sql.go on `users`, and a predicate on the tables that they do not
-- break.
use go_cloud_k8s_auth.Prelude.{
  Bytes, Bool, true, not, keep, List, [], ◌∷◌, ◌++◌, ◌≡◌, update_where, ◌==◌, bytes_eq,
  bytes_beq_iff, sym, ◌∙◌, inl, inr, any, find, find_sound, Bool-cases, Option-cases,
}
use go_cloud_k8s_auth.Prelude.Error.{wrap, map_err}
use go_cloud_k8s_auth.Prelude.Keeps.{Keeps, Keeps-bind, Keeps-map_err}
use go_cloud_k8s_auth.Domain.{Uuid, Time, User, Session, PersonalAccessToken, OAuthUserInfo}
use go_cloud_k8s_auth.Platform.{Platform}
use go_cloud_k8s_auth.Storage.Keeps.{UsersKeep, WritesKeep}
use go_cloud_k8s_auth.Storage.Db.{query, violation, others}
use go_cloud_k8s_auth.Storage.Users.Reads
use go_cloud_k8s_auth.Storage.Users.Reads.{OnTables, query-Keeps, queried}
use go_cloud_k8s_auth.Storage.UserRows.{lacks, target, relinked}
use go_cloud_k8s_auth.Storage.Users.{
  pgx_users, inserted, insert_row, write_row, upsert_rows, upsert_by_provider, role_rows,
  delete_rows, create, update, add_role, delete, update_rows, granted, creatable, upsert_error,
  newcomer, edited,
}

-- A new row, a rewriting that keeps the ids, and the deletion of a user with his sessions and tokens
-- keep the predicate.
pub record UserRows (Q : List User → List Session → List PersonalAccessToken → Type 0)
    : Type 0 where
  pub insert :
      (us : List User) (ss : List Session) (ps : List PersonalAccessToken) (u : User)
      → Q us ss ps
      → Q (us ++ u ∷ []) ss ps
  pub change :
      (us : List User) (ss : List Session) (ps : List PersonalAccessToken) (p : User → Bool)
      (f : User → User)
      → ((u : User) → p u ≡ true → (f u).id ≡ u.id)
      → Q us ss ps
      → Q (update_where p f us) ss ps
  pub remove :
      (us : List User) (ss : List Session) (ps : List PersonalAccessToken) (id : Uuid)
      → Q us ss ps
      → Q
          (others id us)
          (keep (λ s. not (s.user_id == id)) ss)
          (keep (λ p. not (p.user_id == id)) ps)

module _ (Q : List User → List Session → List PersonalAccessToken → Type 0) (rows : UserRows Q)
    (pf : Platform) (now : Time) where
  insert_row-Keeps : (u : User) → Keeps (OnTables Q) (insert_row pf now u)
  unfolding insert_row
  insert_row-Keeps u = record {
    after = λ db k. elim (Option-cases (violation (inserted pf now u db) db.users)) [
      | inl e ↦
          rw (e, insert_row) (rows.insert db.users db.sessions db.pats (inserted pf now u db) k)
      | inr (c, e) ↦ rw (e, insert_row) k
    ];
  }

  write_row-Keeps : (u : User) → Keeps (OnTables Q) (write_row pf now u)
  unfolding write_row
  write_row-Keeps u = record {
    after = λ db k. elim (Option-cases (violation u (others u.id db.users))) [
      | inl e ↦
          rw (e, write_row)
            (rows.change db.users db.sessions db.pats (λ v. v.id == u.id) (λ _. u)
              (λ v h. sym ((bytes_beq_iff v.id u.id).0 h)) k)
      | inr (c, e) ↦ rw (e, write_row) k
    ];
  }

  upsert_rows-Keeps : (info : OAuthUserInfo) → Keeps (OnTables Q) (upsert_rows pf now info)
  unfolding upsert_rows
  upsert_rows-Keeps info = record {
    after = λ db k. elim (Option-cases (target info db.users)) [
      | inl e ↦ rw (e, upsert_rows) ((insert_row-Keeps (newcomer pf now info)).after db k)
      | inr (u, e) ↦ rw (e, upsert_rows) ((write_row-Keeps (relinked now info u)).after db k)
    ];
  }

  upsert-Keeps : (info : OAuthUserInfo) → Keeps (OnTables Q) (upsert_by_provider pf now info)
  unfolding upsert_by_provider
  upsert-Keeps info =
      Keeps-map_err (OnTables Q) (upsert_error pf now) _ (queried Q _ (upsert_rows-Keeps info))

  create-Keeps : (u : User) → Keeps (OnTables Q) (create pf now u)
  unfolding create
  create-Keeps u = queried Q _ (insert_row-Keeps (creatable pf now u))

  update_rows-Keeps : (id : Uuid) (u : User) → Keeps (OnTables Q) (update_rows pf now id u)
  unfolding update_rows
  update_rows-Keeps id u = record {
    after = λ db k. elim (Option-cases (find (λ v. v.id == id) db.users)) [
      | inl e ↦ rw (e, update_rows) k
      | inr (old, e) ↦ rw (e, update_rows) ((write_row-Keeps (edited pf now u old)).after db k)
    ];
  }

  update-Keeps : (id : Uuid) (u : User) → Keeps (OnTables Q) (update pf now id u)
  unfolding update
  update-Keeps id u = queried Q _ (update_rows-Keeps id u)

  role_rows-Keeps : (id : Uuid) (role : Bytes) → Keeps (OnTables Q) (role_rows pf now id role)
  unfolding role_rows
  role_rows-Keeps id role = record {
    after = λ db k. elim (Option-cases (find (λ v. v.id == id) db.users)) [
      | inl e ↦ rw (e, role_rows) k
      | inr (u, e) ↦ elim (Bool-cases (lacks role u)) [
        | inr h ↦ rw (e, h, role_rows) k
        | inl h ↦
            rw (e, h, role_rows)
              (rows.change db.users db.sessions db.pats (λ v. v.id == id)
                (λ _. granted pf now role u)
                (λ v g.
                  (bytes_beq_iff u.id id).0 (find_sound _ db.users e)
                  ∙ sym ((bytes_beq_iff v.id id).0 g))
                k)
      ]
    ];
  }

  pub add_role-Keeps : (id : Uuid) (role : Bytes) → Keeps (OnTables Q) (add_role pf now id role)
  unfolding add_role
  add_role-Keeps id role = Keeps-map_err (OnTables Q) wrap _ (queried Q _ (role_rows-Keeps id role))

  delete_rows-Keeps : (id : Uuid) → Keeps (OnTables Q) (delete_rows pf now id)
  unfolding delete_rows
  delete_rows-Keeps id = record {
    after = λ db k.
        let h = rows.remove db.users db.sessions db.pats id k in
        elim (Bool-cases (any (λ u. u.id == id) db.users)) [
          | inl e ↦ elim (Bool-cases (any (λ g. g.owner_id == id) db.groups)) [
            | inl f ↦ rw (e, f, delete_rows) k
            | inr f ↦ rw (e, f, delete_rows) h
          ]
          | inr e ↦ rw (e, delete_rows) k
        ];
  }

  delete-Keeps : (id : Uuid) → Keeps (OnTables Q) (delete pf now id)
  unfolding delete
  delete-Keeps id =
      Keeps-bind (OnTables Q) (map_err wrap query) _
        (Keeps-map_err (OnTables Q) wrap query (query-Keeps Q)) λ _. delete_rows-Keeps id

  pub pgx_users-Keep : UsersKeep (OnTables Q) (pgx_users pf now)
  pgx_users-Keep = record {
    upsert_by_provider = upsert-Keeps;
    get_by_id = Reads.get_by_id-Keeps Q pf now;
    get_by_alternate_app_id = Reads.get_by_alternate_app_id-Keeps Q pf now;
    list = Reads.list-Keeps Q pf now;
    count = Reads.count-Keeps Q pf now;
    exist = Reads.exist-Keeps Q pf now;
    get_user_group_ids = Reads.group_ids-Keeps Q pf now;
  }

  pub pgx_users-WritesKeep : WritesKeep (OnTables Q) (pgx_users pf now)
  pgx_users-WritesKeep = record {
    create = create-Keeps;
    update = update-Keeps;
    delete = delete-Keeps;
  }
