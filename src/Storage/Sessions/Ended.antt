-- ===== src/Storage/Sessions/Ended.antt =====
-- pkg/auth/session_store.go: a session that has ended, and the calls of the store.
use go_cloud_k8s_auth.Prelude.{
  ℕ, ◌+◌, Bytes, ◌==◌, bytes_eq, bytes_cases, subst, sym, Bool, true, false, ◌&&◌, ◌||◌, List, [],
  ◌∷◌, ◌++◌, any, update_where, ◌≡◌, refl, arith, inl, inr,
}
use go_cloud_k8s_auth.Prelude.Error.{Result, Action, wrap, map_err, ◌>>◌, lift, pure}
use go_cloud_k8s_auth.Prelude.Keeps.{Keeps, Keeps-bind, Keeps-map_err}
use go_cloud_k8s_auth.Domain.{Uuid, Time, Session}
use go_cloud_k8s_auth.Platform.{Platform}
use go_cloud_k8s_auth.Storage.Db.{Db, query}
use go_cloud_k8s_auth.Storage.Sessions.{
  hash_session_token, new_session_token, is_open, matches_open, matches_valid, seen, revoked,
  create, get_valid, revoke, revoke_all_for_user, new_row, insert_rows, valid_rows,
}

-- What a client or an administrator can do with sessions, at a time.
pub data Call : Type 0 where
  creates : Result Bytes → Uuid → Bytes → Bytes → ℕ → Call
  validates revokes : Bytes → Call
  revokes_all : Uuid → Call

unfoldable pub call : Platform → Time × Call → Db → Db
call pf (now, creates random user agent ip ttl) db = (create pf now random user agent ip ttl db).1
call pf (now, validates token) db = (get_valid pf now token db).1
call pf (now, revokes token) db = (revoke pf now token db).1
call pf (now, revokes_all user) db = (revoke_all_for_user pf now user db).1

unfoldable pub calls : Platform → List (Time × Call) → Db → Db
calls pf [] db = db
calls pf (c ∷ cs) db = calls pf cs (call pf c db)

abbrev pub has_hash : Bytes → Session → Bool
has_hash hash s = s.token_hash == hash

-- A change of a row that keeps the hash and opens nothing.
abbrev pub Closing : (Session → Session) → Type 0
Closing f =
    (s : Session) → ((f s).token_hash ≡ s.token_hash) × (is_open s ≡ false → is_open (f s) ≡ false)

closed-step :
    (hash : Bytes) (f : Session → Session) (s : Session)
    → Closing f
    → matches_open hash s ≡ false
    → matches_open hash (f s) ≡ false
closed-step hash f s c h = ground (arith, c s)

pub any-matches_open-update :
    (hash : Bytes) (p : Session → Bool) (f : Session → Session) (ss : List Session)
    → Closing f
    → any (matches_open hash) ss ≡ false
    → any (matches_open hash) (update_where p f ss) ≡ false
any-matches_open-update hash p f [] c h = refl
any-matches_open-update hash p f (s ∷ ss) c h =
    ground (arith, closed-step hash f s c, any-matches_open-update hash p f ss c)

pub any-has_hash-update :
    (hash : Bytes) (p : Session → Bool) (f : Session → Session) (ss : List Session)
    → Closing f
    → any (has_hash hash) (update_where p f ss) ≡ any (has_hash hash) ss
any-has_hash-update hash p f [] c = refl
any-has_hash-update hash p f (s ∷ ss) c = ground (arith, (c s).0, any-has_hash-update hash p f ss c)

pub seen-Closing : (now : Time) → Closing (seen now)
seen-Closing now s = (refl, λ h. h)

pub revoked-Closing : (now : Time) → Closing (revoked now)
revoked-Closing now s = (refl, λ h. refl)

-- A hash that is taken, by sessions that have all been revoked.
abbrev pub Ended : Bytes → Db → Type 0
Ended hash db =
    (any (matches_open hash) db.sessions ≡ false) × (any (has_hash hash) db.sessions ≡ true)

pub any-append :
    (p : Session → Bool) (ss : List Session) (s : Session) → any p (ss ++ s ∷ []) ≡ any p ss || p s
any-append p [] s = ground arith
any-append p (t ∷ ss) s = ground (arith, any-append p ss s)

query-sessions : (db : Db) → (query db).1.sessions ≡ db.sessions
unfolding query
query-sessions db = ground arith

module _ (pf : Platform) (now : Time) (hash : Bytes) where
  insert-Ended :
      (h : Bytes) (user : Uuid) (expires : Time) (agent ip : Bytes) (db : Db)
      → Ended hash db
      → Ended hash (insert_rows pf now h user expires agent ip db).1
  unfolding insert_rows
  insert-Ended h user expires agent ip db (o, t) = elim (bytes_cases h hash) [
    | inl (_, e) ↦
        let taken : any (has_hash h) db.sessions ≡ true =
          subst (λ x. any (has_hash x) db.sessions ≡ true) (sym e) t in
        ground arith
    | inr (e, _) ↦ ground (
      arith,
      any-append (matches_open hash) db.sessions (new_row pf now h user expires agent ip db),
      any-append (has_hash hash) db.sessions (new_row pf now h user expires agent ip db),
    )
  ]

  query-Keeps : Keeps (Ended hash) query
  unfolding query
  query-Keeps = record { after = λ db e. ground arith }

  create-Keeps :
      (random : Result Bytes) (user : Uuid) (agent ip : Bytes) (ttl : ℕ)
      → Keeps (Ended hash) (create pf now random user agent ip ttl)
  unfolding create
  create-Keeps random user agent ip ttl =
      Keeps-bind (Ended hash) (lift (new_session_token pf random)) after_token
        (record { after = λ db e. e })
        λ token.
          Keeps-bind (Ended hash) (map_err wrap (query >> insert token)) (λ _. pure token.0)
            (Keeps-map_err (Ended hash) wrap (query >> insert token) (
              Keeps-bind (Ended hash) query (λ _. insert token) query-Keeps
                λ _. record { after = insert-Ended token.1 user (now + ttl) agent ip }))
            (λ _. record { after = λ db e. e })
    where
      insert : Bytes × Bytes → Action Db (Unit {0})
      insert token = insert_rows pf now token.1 user (now + ttl) agent ip

      after_token : Bytes × Bytes → Action Db Bytes
      after_token token = map_err wrap (query >> insert token) >> pure token.0

  call-Ended : (c : Call) (db : Db) → Ended hash db → Ended hash (call pf (now, c) db)
  unfolding call get_valid revoke revoke_all_for_user valid_rows
  call-Ended (creates random user agent ip ttl) db e =
      (create-Keeps random user agent ip ttl).after db e
  call-Ended (validates token) db (o, t) = ground (
    arith,
    any-matches_open-update hash (matches_valid now (hash_session_token pf token)) (seen now)
        db.sessions (seen-Closing now),
    any-has_hash-update hash (matches_valid now (hash_session_token pf token)) (seen now)
        db.sessions (seen-Closing now),
  )
  call-Ended (revokes token) db (o, t) = ground (
    arith,
    any-matches_open-update hash (matches_open (hash_session_token pf token)) (revoked now)
        db.sessions (revoked-Closing now),
    any-has_hash-update hash (matches_open (hash_session_token pf token)) (revoked now) db.sessions
        (revoked-Closing now),
  )
  call-Ended (revokes_all user) db (o, t) = ground (
    arith,
    any-matches_open-update hash (λ s. s.user_id == user && is_open s) (revoked now) db.sessions
        (revoked-Closing now),
    any-has_hash-update hash (λ s. s.user_id == user && is_open s) (revoked now) db.sessions
        (revoked-Closing now),
  )

pub calls-Ended :
    (pf : Platform) (hash : Bytes) (cs : List (Time × Call)) (db : Db)
    → Ended hash db
    → Ended hash (calls pf cs db)
unfolding calls
calls-Ended pf hash [] db e = e
calls-Ended pf hash ((now, c) ∷ cs) db e =
    calls-Ended pf hash cs (call pf (now, c) db) (call-Ended pf now hash c db e)
