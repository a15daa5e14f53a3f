-- ===== src/Storage/Users/Identity.antt =====
-- Whose account an OAuth login reaches: `upsertUserByProvider` and ErrEmailInUse.
use go_cloud_k8s_auth.Prelude.{
  suc, ◌==◌, bytes_eq, true, false, none, some, List, [], ◌∷◌, ◌++◌, ◌≡◌, refl, arith, any, find,
  find-none, if◌then◌else◌, Bool, ◌||◌, ◌&&◌, subst, sym, Option-cases, inl, inr, ◌⊎◌,
  bytes_beq_iff,
}
use go_cloud_k8s_auth.Prelude.Int.{pos, int_eq}
use go_cloud_k8s_auth.Prelude.Error.{ok, err, sentinel, email_in_use}
use go_cloud_k8s_auth.Domain.{Time, User, OAuthUserInfo}
use go_cloud_k8s_auth.Platform.{Platform}
use go_cloud_k8s_auth.Storage.Db.{Db, violation}
use go_cloud_k8s_auth.Storage.UserRows.{target, same_identity, same_email}
use go_cloud_k8s_auth.Storage.Users.{upsert_by_provider, newcomer, inserted}

target_identity :
    (info : OAuthUserInfo) (us : List User) (v : User)
    → find (same_identity info) us ≡ some v
    → target info us ≡ some v
unfolding target
target_identity info us v h = rw (h, target)

unverified_target :
    (info : OAuthUserInfo) (us : List User)
    → info.email_verified ≡ false
    → find (same_email info) us ≡ none
unverified_target info [] h = refl
unverified_target info (u ∷ us) h = ground (arith, unverified_target info us h)

-- The row is one that the login may reach: of its identity, or of an e-mail that the provider asserts.
abbrev pub may_reach : OAuthUserInfo → User → Bool
may_reach info v =
    (v.provider == info.provider && v.provider_id == info.provider_id)
    || (info.email_verified && v.email == info.email)

reached-find :
    (info : OAuthUserInfo) (p : User → Bool) (us : List User) (v : User)
    → ((w : User) → p w ≡ true → may_reach info w ≡ true)
    → find p us ≡ some v
    → any (λ w. w.id == v.id && may_reach info w) us ≡ true
reached-find info p [] v k h = cc
reached-find info p (w ∷ us) v k h =
    ground (arith, k w, reached-find info p us v k, bytes_beq_iff w.id v.id)

reached-target :
    (info : OAuthUserInfo) (us : List User) (v : User)
    → target info us ≡ some v
    → any (λ w. w.id == v.id && may_reach info w) us ≡ true
unfolding target
reached-target info us v h = elim (Option-cases (find (same_identity info) us)) [
  | inl e ↦ reached-find info (same_email info) us v (λ w q. ground arith) (ground arith)
  | inr (w, e) ↦ reached-find info (same_identity info) us v (λ w q. ground arith) (ground arith)
]

violation-fresh :
    (u : User) (us : List User) → violation u us ≡ none → any (λ v. v.id == u.id) us ≡ false
unfolding violation
violation-fresh u us h = ground arith

module _ (pf : Platform) (now : Time) (info : OAuthUserInfo) (db : Db) where
  -- An e-mail that the provider does not assert, from an identity that is not known, with the
  -- database reachable and fresh ids: the login is refused with ErrEmailInUse if any account has
  -- that e-mail, and otherwise appends a user whose only role is "user". No existing row changes.
  pub unverified_newcomer :
      info.email_verified ≡ false
      → find (same_identity info) db.users ≡ none
      → any (λ v. v.id == pf.gen_uuid db.seq) db.users ≡ false
      → any (λ v. v.alternate_app_id == pos db.user_seq) db.users ≡ false
      → db.faults ≡ []
      → upsert_by_provider pf now info db ≡ (
          if any (λ v. v.email == info.email) db.users
          then (
            err (sentinel email_in_use),
            record db { seq = suc db.seq; user_seq = suc db.user_seq },
          )
          else (
            ok (inserted pf now (newcomer pf now info) db),
            record db {
              users = db.users ++ inserted pf now (newcomer pf now info) db ∷ [];
              seq = suc db.seq;
              user_seq = suc db.user_seq;
            },
          ))
  unfolding upsert_by_provider violation target
  unverified_newcomer unverified unknown fresh serial calm = ground (
    arith,
    unverified_target info db.users unverified,
    find-none (same_identity info) db.users unknown,
  )

  -- A login of a known identity that succeeds reaches the account of that identity, whatever its
  -- e-mail says, and the upsert leaves the roles, the status and the ids of that account as they
  -- are.
  pub known_identity :
      (v u : User) (db' : Db)
      → find (same_identity info) db.users ≡ some v
      → upsert_by_provider pf now info db ≡ (ok u, db')
      → (u.id ≡ v.id)
        × (u.alternate_app_id ≡ v.alternate_app_id)
        × (u.roles ≡ v.roles)
        × (u.is_active ≡ v.is_active)
  unfolding upsert_by_provider
  known_identity v u db' known h = ground (arith, target_identity info db.users v known)

  -- The account that a successful login reaches is a new one, whose id no row had, or has the id
  -- of a row with the login's own identity, or of a row whose e-mail is the login's and the
  -- provider asserts it verified.
  pub reached_account :
      (u : User) (db' : Db)
      → upsert_by_provider pf now info db ≡ (ok u, db')
      → (any (λ w. w.id == u.id) db.users ≡ false)
        ⊎ (any (λ w. w.id == u.id && may_reach info w) db.users ≡ true)
  unfolding upsert_by_provider
  reached_account u db' h = elim (Option-cases (target info db.users)) [
    | inl e ↦ inl (
        let fresh = violation-fresh (inserted pf now (newcomer pf now info) db) db.users in
        let same : u.id ≡ pf.gen_uuid db.seq = ground arith in
        subst (λ id. any (λ w. w.id == id) db.users ≡ false) (sym same) (ground (arith, fresh)))
    | inr (v, e) ↦
        let same : u.id ≡ v.id = ground arith in
        inr (
          subst (λ id. any (λ w. w.id == id && may_reach info w) db.users ≡ true) (sym same)
            (reached-target info db.users v e))
  ]
