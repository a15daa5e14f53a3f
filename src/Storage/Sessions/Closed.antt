-- ===== src/Storage/Sessions/Closed.antt =====
-- pkg/auth/session_store.go: no session under a hash is open.
use go_cloud_k8s_auth.Prelude.{
  Bytes, ◌==◌, bytes_eq, bytes_beq, bytes_beq_iff, Bool, false, not, List, [], ◌∷◌, any, keep, ◌≡◌,
  ◌≢◌, refl, arith, inl, inr, Bool-cases,
}
use go_cloud_k8s_auth.Domain.{Time, User, Session, PersonalAccessToken}
use go_cloud_k8s_auth.Storage.Sessions.{hash_session_token, matches_open, revoke}
use go_cloud_k8s_auth.Storage.Sessions.Lifetime.{all_revoked}
use go_cloud_k8s_auth.Storage.Db.{Db, query}
use go_cloud_k8s_auth.Storage.Users.Reads.{OnTables}
use go_cloud_k8s_auth.Platform.{Platform}
use go_cloud_k8s_auth.Storage.Sessions.Ended.{any-append, any-matches_open-update}
use go_cloud_k8s_auth.Storage.Sessions.Keeps.{SessionRows}
use go_cloud_k8s_auth.Storage.Users.Writes.{UserRows}
use go_cloud_k8s_auth.Storage.Pats.Keeps.{PatRows}

module _ (hash : Bytes) where
  abbrev pub Closed : List User → List Session → List PersonalAccessToken → Type 0
  Closed us ss ps = any (matches_open hash) ss ≡ false

  -- Another hash than this one.
  abbrev pub IsOther : Bytes → Type 0
  IsOther h = h ≢ hash

  other_unmatched : (s : Session) → IsOther s.token_hash → matches_open hash s ≡ false
  other_unmatched s n = elim (Bool-cases (bytes_beq s.token_hash hash)) [
    | inl e ↦ elim (n ((bytes_beq_iff s.token_hash hash).0 e)) [ ]
    | inr e ↦ ground arith
  ]

  any-keep :
      (p : Session → Bool) (ss : List Session)
      → any (matches_open hash) ss ≡ false
      → any (matches_open hash) (keep p ss) ≡ false
  any-keep p [] h = refl
  any-keep p (s ∷ ss) h = ground (arith, any-keep p ss)

  pub Closed-SessionRows : SessionRows Closed IsOther
  Closed-SessionRows = record {
    insert = λ us ss ps s n h k.
        ground (arith, any-append (matches_open hash) ss s, other_unmatched s n);
    change = λ us ss ps p f h c k. any-matches_open-update hash p f ss c k;
  }

  pub Closed-UserRows : UserRows Closed
  Closed-UserRows = record {
    insert = λ us ss ps u k. k;
    change = λ us ss ps p f h k. k;
    remove = λ us ss ps id k. any-keep (λ s. not (s.user_id == id)) ss k;
  }

  pub Closed-PatRows : PatRows Closed
  Closed-PatRows = record { insert = λ us ss ps p h k. k; change = λ us ss ps p f h k. k }

-- A revocation that reaches the database closes the sessions under the hash of its token.
pub revoke-Closed :
    (pf : Platform) (now : Time) (token : Bytes) (db : Db)
    → db.faults ≡ []
    → OnTables (Closed (hash_session_token pf token)) (revoke pf now token db).1
unfolding revoke query
revoke-Closed pf now token db calm =
    ground (arith, all_revoked now (hash_session_token pf token) db.sessions)
