-- ===== src/Storage/Users/Reads.antt =====
-- The queries of pkg/auth/storage_postgres.go that read `users`.
use go_cloud_k8s_auth.Prelude.{Bool, Option, List, arith, bytes_eq}
use go_cloud_k8s_auth.Prelude.Int.{ℤ, int_eq}
use go_cloud_k8s_auth.Prelude.Error.{Action, ◌>>◌}
use go_cloud_k8s_auth.Prelude.Keeps.{Keeps, Keeps-bind}
use go_cloud_k8s_auth.Domain.{Uuid, Time, User, Session, PersonalAccessToken}
use go_cloud_k8s_auth.Platform.{Platform}
use go_cloud_k8s_auth.Storage.Db.{Db, query}
use go_cloud_k8s_auth.Storage.Users.{
  get_one, get_by_id, get_by_alternate_app_id, list, count, exist, get_user_group_ids,
}

module _ (Q : List User → List Session → List PersonalAccessToken → Type 0) where
  -- A predicate on three of the tables.
  abbrev pub OnTables : Db → Type 0
  OnTables db = Q db.users db.sessions db.pats

  pub query-Keeps : Keeps OnTables query
  unfolding query
  query-Keeps = record { after = λ db k. ground arith }

  -- A statement behind the query that may fail.
  pub queried : {B : Type 0} (m : Action Db B) → Keeps OnTables m → Keeps OnTables (do query; m)
  queried m h = Keeps-bind OnTables query (λ _. m) query-Keeps (λ _. h)

  module _ (pf : Platform) (now : Time) where
    pub get_by_id-Keeps : (id : Uuid) → Keeps OnTables (get_by_id pf now id)
    unfolding get_by_id get_one query
    get_by_id-Keeps id = record { after = λ db k. ground (arith, query-Keeps.after db k) }

    pub get_by_alternate_app_id-Keeps :
        (id : ℤ) → Keeps OnTables (get_by_alternate_app_id pf now id)
    unfolding get_by_alternate_app_id get_one query
    get_by_alternate_app_id-Keeps id = record {
      after = λ db k. ground (arith, query-Keeps.after db k);
    }

    pub list-Keeps :
        (offset limit : ℤ) (filter : Option Bool) → Keeps OnTables (list pf now offset limit filter)
    unfolding list query
    list-Keeps offset limit filter = record {
      after = λ db k. ground (arith, query-Keeps.after db k);
    }

    pub count-Keeps : (filter : Option Bool) → Keeps OnTables (count pf now filter)
    unfolding count query
    count-Keeps filter = record { after = λ db k. ground (arith, query-Keeps.after db k) }

    pub exist-Keeps : (id : Uuid) → Keeps OnTables (exist pf now id)
    unfolding exist
    exist-Keeps id = record { after = λ db k. query-Keeps.after db k }

    pub group_ids-Keeps : (id : Uuid) → Keeps OnTables (get_user_group_ids pf now id)
    unfolding get_user_group_ids query
    group_ids-Keeps id = record { after = λ db k. ground (arith, query-Keeps.after db k) }
