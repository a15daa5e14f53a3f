-- ===== src/PatService/Keeps.antt =====
-- pkg/auth/pat_service.go over storages that keep a predicate.
use go_cloud_k8s_auth.Prelude.{ℕ, Bytes, List, ◌||◌, length, take, ltb, inl, inr, arith}
use go_cloud_k8s_auth.Prelude.Int.{ℤ, is_negative}
use go_cloud_k8s_auth.Prelude.Strings.{is_empty}
use go_cloud_k8s_auth.Prelude.Error.{Result, ok, raise, lift, wrap, sentinel, invalid_input}
use go_cloud_k8s_auth.Prelude.Invert.{Outcome-cases}
use go_cloud_k8s_auth.Prelude.Keeps.{Keeps, Keeps-return, Keeps-if, Keeps-bind}
use go_cloud_k8s_auth.Domain.{Uuid, Time, User, PersonalAccessToken}
use go_cloud_k8s_auth.Platform.{Platform}
use go_cloud_k8s_auth.Storage.{UserStorage, PatStorage}
use go_cloud_k8s_auth.Storage.Keeps.{UsersKeep, PatsKeep}
use go_cloud_k8s_auth.PatService.{
  create, list, revoke, introspect, check_pat, check_owner, confirm, hash_pat_token,
  validate_pat_scopes, generate_pat_token, pat_display_prefix_len, expiry,
}

module _ {S : Type 0} (P : S → Type 0) (pf : Platform) (pats : PatStorage S) (store : UserStorage S)
    (keeps : PatsKeep P pats) (reads : UsersKeep P store) where
  pub create-Keeps :
      (draw : ℕ → Result ℕ) (now : Time) (id : Uuid) (name : Bytes) (scopes : List Bytes) (days : ℤ)
      → Keeps P (create pf pats store draw now id name scopes days)
  unfolding create
  create-Keeps draw now id name scopes days =
      Keeps-if P (is_empty name || ltb 100 (length name)) (raise (wrap (sentinel invalid_input))) _
        (Keeps-return P _)
        (Keeps-if P (is_negative days) (raise (wrap (sentinel invalid_input))) _ (Keeps-return P _)
          (Keeps-bind P (lift (validate_pat_scopes scopes)) _ (Keeps-return P _) λ normalized.
            Keeps-bind P (lift (generate_pat_token draw)) _ (Keeps-return P _) λ token.
              Keeps-bind P _ _
                (keeps.create id (hash_pat_token pf token) (take pat_display_prefix_len token) name
                  normalized (expiry pf now days))
                λ p. Keeps-return P (ok (token, p))))

  pub list-Keeps : (id : Uuid) → Keeps P (list pf pats store id)
  unfolding list
  list-Keeps id = keeps.list_by_user id

  pub revoke-Keeps : (id user_id : Uuid) → Keeps P (revoke pf pats store id user_id)
  unfolding revoke
  revoke-Keeps id user_id = keeps.revoke id user_id

  confirm-Keeps : (p : PersonalAccessToken) (u : User) → Keeps P (confirm pf pats store p u)
  unfolding confirm
  confirm-Keeps p u = record { after = (keeps.touch_last_used p.id).after }

  owner-Keeps : (p : PersonalAccessToken) → Keeps P (check_owner pf pats store p)
  unfolding check_owner
  owner-Keeps p = record {
    after = λ s k. elim (Outcome-cases (store.get_by_id p.user_id s)) [
      | inl (u, t, e) ↦
          let h = (reads.get_by_id p.user_id).after s k in
          ground (arith, (confirm-Keeps p u).after t)
      | inr (x, t, e) ↦ let h = (reads.get_by_id p.user_id).after s k in ground arith
    ];
  }

  pat-Keeps : (now : Time) (p : PersonalAccessToken) → Keeps P (check_pat pf pats store now p)
  unfolding check_pat
  pat-Keeps now p = record { after = λ s k. ground (arith, (owner-Keeps p).after s k) }

  pub introspect-Keeps : (now : Time) (token : Bytes) → Keeps P (introspect pf pats store now token)
  unfolding introspect
  introspect-Keeps now token = record {
    after = λ s k. elim (Outcome-cases (pats.get_by_hash (hash_pat_token pf token) s)) [
      | inl (p, t, e) ↦
          let h = (keeps.get_by_hash (hash_pat_token pf token)).after s k in
          ground (arith, (pat-Keeps now p).after t)
      | inr (x, t, e) ↦
          let h = (keeps.get_by_hash (hash_pat_token pf token)).after s k in ground arith
    ];
  }
