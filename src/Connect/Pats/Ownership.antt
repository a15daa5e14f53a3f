-- ===== src/Connect/Pats/Ownership.antt =====
-- pkg/auth/pat_connect_server.go: the tokens that a revocation touches, over PostgreSQL.
use go_cloud_k8s_auth.Prelude.{
  Bytes, ◌==◌, false, ◌≡◌, ◌≢◌, arith, ◌⊎◌, inl, inr, subst, ap, sym, Bool-cases, Option-cases,
}
use go_cloud_k8s_auth.Prelude.Int.{pos, int_eq, int_beq_iff}
use go_cloud_k8s_auth.Prelude.Error.{Result, ok, err}
use go_cloud_k8s_auth.Prelude.Invert.{Outcome-cases}
use go_cloud_k8s_auth.Domain.{Time, User}
use go_cloud_k8s_auth.Platform.{Platform}
use go_cloud_k8s_auth.Storage.Db.{Db}
use go_cloud_k8s_auth.Storage.Users.{pgx_users, get_by_alternate_app_id}
use go_cloud_k8s_auth.Storage.Users.Lookup.{get_by_alternate_app_id-pats}
use go_cloud_k8s_auth.Storage.Pats.{pgx_pats, revoke}
use go_cloud_k8s_auth.Storage.Pats.Revocation.{OnlyOwn, revoke-OnlyOwn}
use go_cloud_k8s_auth.PatService
use go_cloud_k8s_auth.Connect.{Context, get_user_from_context}
use go_cloud_k8s_auth.Connect.Pats.{current_user_uuid, parse_pat_id, revoke_personal_access_token}

module _ (pf : Platform) (now : Time) (ctx : Context) (msg_id : Bytes) (db : Db) where
  -- The row of the caller in the state `db`.
  abbrev pub IsCaller : User → Type 0
  IsCaller u =
      ((get_user_from_context ctx).0 ≢ pos 0)
      × ((get_by_alternate_app_id pf now (get_user_from_context ctx).0 db).0 ≡ ok u)

  -- The state after the request.
  abbrev pub after : Db
  after = (revoke_personal_access_token pf (pgx_pats pf now) (pgx_users pf now) ctx msg_id db).1

  lookup-pats :
      (r : Result User) (t : Db)
      → get_by_alternate_app_id pf now (get_user_from_context ctx).0 db ≡ (r, t)
      → t.pats ≡ db.pats
  lookup-pats r t e =
      subst (λ o. o.1.pats ≡ db.pats) e
        (get_by_alternate_app_id-pats pf now (get_user_from_context ctx).0 db)

  -- Whatever id a request to revoke a token carries, either no token changes at all, or the caller is
  -- known to the storage and no token of anybody else changes.
  pub revocation_own :
      (after.pats ≡ db.pats) ⊎ ((u : User) × IsCaller u × OnlyOwn u.id db.pats after.pats)
  unfolding revoke_personal_access_token current_user_uuid parse_pat_id PatService.revoke
  revocation_own = elim (Bool-cases ((get_user_from_context ctx).0 == pos 0)) [
    | inl anonymous ↦ inl (ground arith)
    | inr known ↦
        elim (Outcome-cases (get_by_alternate_app_id pf now (get_user_from_context ctx).0 db)) [
          | inr (x, t, e) ↦ inl (ground (arith, lookup-pats (err x) t e))
          | inl (u, t, e) ↦ elim (Option-cases (pf.parse_uuid msg_id)) [
            | inl f ↦ inl (ground (arith, lookup-pats (ok u) t e))
            | inr (id, f) ↦
                let same : after.pats ≡ (revoke pf now id u.id t).1.pats = ground arith in
                let own : OnlyOwn u.id db.pats (revoke pf now id u.id t).1.pats =
                  subst (λ ps. OnlyOwn u.id ps (revoke pf now id u.id t).1.pats)
                    (lookup-pats (ok u) t e) (revoke-OnlyOwn pf now id u.id t) in
                inr (
                  u,
                  (caller_known known, ap (λ o. o.0) e),
                  subst (OnlyOwn u.id db.pats) (sym same) own,
                )
          ]
        ]
  ]
    where
      caller_known :
          ((get_user_from_context ctx).0 == pos 0) ≡ false → (get_user_from_context ctx).0 ≢ pos 0
      caller_known h e = ground (arith, int_beq_iff (get_user_from_context ctx).0 (pos 0))
