-- ===== src/Storage/Users/Findings.antt =====
-- The constraint `unique_provider` of the table `users`, and `Create` of pkg/auth/storage_postgres.go.
use go_cloud_k8s_auth.Prelude.{suc, ◌==◌, bytes_eq, true, false, ◌&&◌, [], ◌≡◌, arith, any}
use go_cloud_k8s_auth.Prelude.Int.{pos, int_eq}
use go_cloud_k8s_auth.Prelude.Error.{err, unique_provider, pg_unique}
use go_cloud_k8s_auth.Domain.{Time, User}
use go_cloud_k8s_auth.Platform.{Platform}
use go_cloud_k8s_auth.Storage.Db.{Db, violation}
use go_cloud_k8s_auth.Storage.Users.{create}

-- Creating a user whose provider and provider id are taken fails and adds no row, also under a
-- fresh ids and an unused e-mail.
pub create_taken_identity :
    (pf : Platform) (now : Time) (u : User) (db : Db)
    → any (λ v. v.provider == u.provider && v.provider_id == u.provider_id) db.users ≡ true
    → any (λ v. v.id == pf.gen_uuid db.seq) db.users ≡ false
    → any (λ v. v.alternate_app_id == pos db.user_seq) db.users ≡ false
    → any (λ v. v.email == u.email) db.users ≡ false
    → db.faults ≡ []
    → create pf now u db ≡ (
      err (pg_unique unique_provider),
      record db { seq = suc db.seq; user_seq = suc db.user_seq },
    )
unfolding create violation
create_taken_identity pf now u db taken fresh serial unused calm = ground arith
