-- ===== src/Storage/Pats/Revocation.antt =====
-- pkg/auth/pat_store.go: `Revoke`, and the rows of other users.
use go_cloud_k8s_auth.Prelude.{
  bytes_eq, bytes_beq_iff, false, List, [], ◌∷◌, any, update_where, ◌≡◌, ◌≢◌, refl, arith,
  Bool-cases, subst, inl, inr,
}
use go_cloud_k8s_auth.Prelude.Error.{Result, ok, err, sentinel, wrap, pat_not_found, map_err, ◌>>◌}
use go_cloud_k8s_auth.Domain.{Uuid, Time, PersonalAccessToken}
use go_cloud_k8s_auth.Platform.{Platform}
use go_cloud_k8s_auth.Storage.Db.{Db, query}
use go_cloud_k8s_auth.Storage.Pats.{revocable, revoked, revoke_rows, revoke}

-- The rows of one table and the other, in order: they are equal, but that tokens of `user` may have
-- become revoked.
abbrev pub OnlyOwn : Uuid → List PersonalAccessToken → List PersonalAccessToken → Type 0
OnlyOwn user [] [] = Unit {0}
OnlyOwn user [] (_ ∷ _) = ⊥
OnlyOwn user (_ ∷ _) [] = ⊥
OnlyOwn user (p ∷ ps) (q ∷ qs) = (p.user_id ≢ user → q ≡ p) × OnlyOwn user ps qs

OnlyOwn-same : (user : Uuid) (ps : List PersonalAccessToken) → OnlyOwn user ps ps
OnlyOwn-same user [] = tt
OnlyOwn-same user (p ∷ ps) = ((λ _. refl), OnlyOwn-same user ps)

query-pats : (db : Db) → (query db).1.pats ≡ db.pats
unfolding query
query-pats db = ground arith

module _ (pf : Platform) (now : Time) where
  OnlyOwn-update :
      (id user : Uuid) (ps : List PersonalAccessToken)
      → OnlyOwn user ps (update_where (revocable pf now id user) (revoked pf now) ps)
  OnlyOwn-update id user [] = tt
  OnlyOwn-update id user (p ∷ ps) =
      ((λ other. ground (arith, bytes_beq_iff p.user_id user)), OnlyOwn-update id user ps)

  OnlyOwn-rows :
      (id user : Uuid) (db : Db) → OnlyOwn user db.pats (revoke_rows pf now id user db).1.pats
  unfolding revoke_rows
  OnlyOwn-rows id user db = elim (Bool-cases (any (revocable pf now id user) db.pats)) [
    | inl e ↦ rw e (OnlyOwn-update id user db.pats)
    | inr e ↦ rw e (OnlyOwn-same user db.pats)
  ]

  none_left :
      (later : Time) (id user : Uuid) (ps : List PersonalAccessToken)
      → any
          (revocable pf later id user)
          (update_where (revocable pf now id user) (revoked pf now) ps)
        ≡ false
  none_left later id user [] = refl
  none_left later id user (p ∷ ps) = ground (arith, none_left later id user ps)

  -- Whatever id a user gives, and whatever comes of it, a revocation leaves the tokens of all other
  -- users as they are, and no row is added or removed.
  pub revoke-OnlyOwn :
      (id user : Uuid) (db : Db) → OnlyOwn user db.pats (revoke pf now id user db).1.pats
  unfolding revoke query
  revoke-OnlyOwn id user db = reached (query db) (query-pats db)
    where
      reached :
          (q : Result (Unit {0}) × Db)
          → q.1.pats ≡ db.pats
          → OnlyOwn user db.pats ((map_err wrap (λ _. q) >> revoke_rows pf now id user) db).1.pats
      reached (ok _, d) e =
          subst (λ ps. OnlyOwn user ps (revoke_rows pf now id user d).1.pats) e
            (OnlyOwn-rows id user d)
      reached (err x, d) e = subst (λ ps. OnlyOwn user ps d.pats) e (OnlyOwn-same user d.pats)

  -- With the database reachable, after a revocation that succeeded a second one of the same token,
  -- at whatever time, fails with ErrPatNotFound and changes nothing.
  pub revoke_once :
      (id user : Uuid) (later : Time) (db db' : Db)
      → db.faults ≡ []
      → revoke pf now id user db ≡ (ok tt, db')
      → revoke pf later id user db' ≡ (err (sentinel pat_not_found), db')
  unfolding revoke revoke_rows query
  revoke_once id user later db db' calm h = ground (arith, none_left later id user db.pats)
