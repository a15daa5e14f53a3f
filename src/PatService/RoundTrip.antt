-- ===== src/PatService/RoundTrip.antt =====
-- pkg/auth/pat_service.go: a token from its creation to its introspection, over PostgreSQL.
use go_cloud_k8s_auth.Prelude.{
  ℕ, Bytes, ◌==◌, bytes_eq, true, false, not, ◌||◌, Option, none, some, List, [], ◌++◌,
  if◌then◌else◌, any, find, take, ◌≡◌, arith, subst, sym, inl, inr,
}
use go_cloud_k8s_auth.Prelude.Int.{ℤ}
use go_cloud_k8s_auth.Prelude.Strings.{str, has_prefix}
use go_cloud_k8s_auth.Prelude.Error.{Result-cases, Result, ok}
use go_cloud_k8s_auth.Prelude.Invert.{Outcome-cases}
use go_cloud_k8s_auth.Domain.{Uuid, Time, User, PersonalAccessToken}
use go_cloud_k8s_auth.Platform.{Platform}
use go_cloud_k8s_auth.Storage.{UserStorage, PatStorage}
use go_cloud_k8s_auth.Storage.Db.{Db}
use go_cloud_k8s_auth.Storage.Users.{pgx_users}
use go_cloud_k8s_auth.Storage.Users.Lookup.{get_by_id-found}
use go_cloud_k8s_auth.Storage.Pats.{stored_end, pgx_pats, touch_last_used}
use go_cloud_k8s_auth.Storage.Pats
use go_cloud_k8s_auth.Storage.Pats.Lookup.{create-IsStored}
use go_cloud_k8s_auth.PatService.{
  PatIntrospection, inactive, pat_token_prefix, pat_display_prefix_len, hash_pat_token,
  generate_pat_token, validate_pat_scopes, expiry, expired, create, introspect, check_pat,
  check_owner, confirm,
}
use go_cloud_k8s_auth.PatService.Tokens.{generate_pat_token-shape}

module _ {S : Type 0} (pf : Platform) (pats : PatStorage S) (users : UserStorage S) where
  create-parts :
      (draw : ℕ → Result ℕ) (now : Time) (user : Uuid) (name : Bytes) (scopes : List Bytes)
      (days : ℤ) (token : Bytes) (p : PersonalAccessToken) (s t : S)
      → create pf pats users draw now user name scopes days s ≡ (ok (token, p), t)
      → (kept : List Bytes) × (validate_pat_scopes scopes ≡ ok kept)
        × (generate_pat_token draw ≡ ok token)
        × (pats.create user
              (hash_pat_token pf token)
              (take pat_display_prefix_len token)
              name
              kept
              (expiry pf now days)
              s
            ≡ (ok p, t))
  unfolding create
  create-parts draw now user name scopes days token p s t h =
      elim (Result-cases (validate_pat_scopes scopes)) [
        | inr (x, e) ↦ ground arith
        | inl (kept, e) ↦ elim (Result-cases (generate_pat_token draw)) [
          | inr (x, f) ↦ ground arith
          | inl (tok, f) ↦
              elim (Outcome-cases (
                pats.create user (hash_pat_token pf tok) (take pat_display_prefix_len tok) name kept
                  (expiry pf now days) s)) [
                    | inr (x, s₁, g) ↦ ground arith
                    | inl (q, s₁, g) ↦
                        let same : (tok ≡ token) × (q ≡ p) × (s₁ ≡ t) = ground arith in
                        (kept, e, ground arith, ground arith)
                  ]
        ]
      ]

module _ (pf : Platform) (start now : Time) where
  stored_active :
      (token : Bytes) (p : PersonalAccessToken) (u : User) (db : Db)
      → has_prefix token pat_token_prefix ≡ true
      → Pats.get_by_hash pf now (hash_pat_token pf token) db ≡ (ok p, db)
      → p.revoked_at ≡ none
      → find (λ v. v.id == p.user_id) db.users ≡ some u
      → db.faults ≡ []
      → (introspect pf (pgx_pats pf now) (pgx_users pf now) now token db).0
        ≡ ok (
            if expired now p || not u.is_active then inactive else record {
              active = true;
              user_id = u.alternate_app_id;
              email = u.email;
              name = u.name;
              scopes = p.scopes;
              expires_at = p.expires_at;
            })
  unfolding introspect check_pat check_owner confirm
  stored_active token p u db prefixed found open_ owner calm =
      ground (arith, get_by_id-found pf now p.user_id u db owner calm)

  -- A new token of an existing user, with the database reachable and its hash not in use before,
  -- and presented at any time without changes in between: it is reported active, as its owner,
  -- with the scopes of its row and the end that was asked for, to the microsecond, exactly if it is not past its end
  -- and its owner is active.
  pub created_introspected :
      (draw : ℕ → Result ℕ) (user : Uuid) (name : Bytes) (scopes : List Bytes) (days : ℤ)
      (token : Bytes) (p : PersonalAccessToken) (u : User) (db db' : Db)
      → create pf (pgx_pats pf start) (pgx_users pf start) draw start user name scopes days db
        ≡ (ok (token, p), db')
      → any (λ q. q.token_hash == hash_pat_token pf token) db.pats ≡ false
      → find (λ v. v.id == user) db.users ≡ some u
      → db.faults ≡ []
      → (introspect pf (pgx_pats pf now) (pgx_users pf now) now token db').0
        ≡ ok (
            if expired now p || not u.is_active then inactive else record {
              active = true;
              user_id = u.alternate_app_id;
              email = u.email;
              name = u.name;
              scopes = p.scopes;
              expires_at = stored_end (expiry pf start days);
            })
  unfolding has_prefix
  created_introspected draw user name scopes days token p u db db' h fresh owner calm =
      let (kept, _, drawn, made) =
        create-parts pf (pgx_pats pf start) (pgx_users pf start) draw start user name scopes days
          token p db db' h in
      let (shape, spelled, _, _) = generate_pat_token-shape draw token drawn in
      let (found, own, _, ends, open_, users, calm') =
        create-IsStored pf start now user (hash_pat_token pf token)
          (take pat_display_prefix_len token) name kept (expiry pf start days) p db db' calm fresh
          made in
      let there : find (λ v. v.id == p.user_id) db'.users ≡ some u =
        rw users (subst (λ id. find (λ v. v.id == id) db.users ≡ some u) (sym own) owner) in
      subst
        (λ x. (introspect pf (pgx_pats pf now) (pgx_users pf now) now token db').0 ≡ ok (report x))
        ends (stored_active token p u db' (prefixed shape spelled) found open_ there calm')
    where
      prefixed :
          (shape : Bytes) → token ≡ str "pat_" ++ shape → has_prefix token pat_token_prefix ≡ true
      prefixed shape e = rw e

      report : Option Time → PatIntrospection
      report expires = if expired now p || not u.is_active then inactive else record {
        active = true;
        user_id = u.alternate_app_id;
        email = u.email;
        name = u.name;
        scopes = p.scopes;
        expires_at = expires;
      }
