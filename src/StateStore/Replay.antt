-- ===== src/StateStore/Replay.antt =====
-- The life of a state token in pkg/auth/state_store.go, among the operations of other requests.
use go_cloud_k8s_auth.Prelude.{
  ◌+◌, ◌≤◌, Bytes, bytes_beq_iff, none, some, List, [], ◌∷◌, ◌≡◌, arith, All, leb, ◌<◌, ◌&&◌, ◌==◌,
  bytes_eq, if◌then◌else◌, ◌⊎◌, inl,
}
use go_cloud_k8s_auth.Prelude.Strings.{hex}
use go_cloud_k8s_auth.Prelude.Error.{ok, err}
use go_cloud_k8s_auth.Domain.{Time}
use go_cloud_k8s_auth.StateStore.{
  StateStore, StateEntry, generate_with_redirect, validate_and_consume, cleanup,
}
use go_cloud_k8s_auth.StateStore.History.{Op, starts, consumes, ticks, step, run, Fresh, Untouched}

step-absent :
    (state : Bytes) (c : Time × Op) (s : StateStore)
    → Fresh state c.1
    → s.states state ≡ none
    → (step c s).states state ≡ none
unfolding step generate_with_redirect validate_and_consume cleanup
step-absent state (now, starts (ok b) p u) s f h = ground (arith, bytes_beq_iff state (hex b))
step-absent state (now, starts (err e) p u) s f h = h
step-absent state (now, consumes t p) s f h = ground arith
step-absent state (now, ticks) s f h = ground arith

run-absent :
    (state : Bytes) (cs : List (Time × Op)) (s : StateStore)
    → All (λ c. Fresh state c.1) cs
    → s.states state ≡ none
    → (run cs s).states state ≡ none
unfolding run
run-absent state [] s f h = h
run-absent state (c ∷ cs) s f h = run-absent state cs (step c s) f.1 (step-absent state c s f.0 h)

consume-absent :
    (now : Time) (state p : Bytes) (s : StateStore)
    → (validate_and_consume now state p s).1.states state ≡ none
unfolding validate_and_consume
consume-absent now state p s = ground (arith, bytes_beq_iff state state)

-- Once a token has been presented, with whatever provider and outcome, every later attempt fails,
-- as long as no later operation draws the same random bytes.
pub consume_once :
    (state p q : Bytes) (now later : Time) (cs : List (Time × Op)) (s : StateStore)
    → All (λ c. Fresh state c.1) cs
    → (validate_and_consume later state q (run cs (validate_and_consume now state p s).1)).0 ≡ none
unfolding validate_and_consume
consume_once state p q now later cs s f = ground (
  arith,
  run-absent state cs (validate_and_consume now state p s).1 f (consume-absent now state p s),
)

-- What holds of a token between its start and its callback: the entry, or nothing once it is too old.
abbrev Waiting : Bytes → StateEntry → Time → StateStore → Type 0
Waiting state e now s = (s.states state ≡ some e) ⊎ ((s.states state ≡ none) × (e.expires_at < now))

step-Waiting :
    (state : Bytes) (e : StateEntry) (now : Time) (c : Time × Op) (s : StateStore)
    → Untouched state c.1
    → c.0 ≤ now
    → Waiting state e now s
    → Waiting state e now (step c s)
unfolding step generate_with_redirect validate_and_consume cleanup
step-Waiting state e now (t, starts (ok b) p u) s f h w =
    ground (arith, bytes_beq_iff state (hex b))
step-Waiting state e now (t, starts (err x) p u) s f h w = w
step-Waiting state e now (t, consumes k p) s f h w = ground (arith, bytes_beq_iff state k)
step-Waiting state e now (t, ticks) s f h w = ground arith

run-Waiting :
    (state : Bytes) (e : StateEntry) (now : Time) (cs : List (Time × Op)) (s : StateStore)
    → All (λ c. Untouched state c.1) cs
    → All (λ c. c.0 ≤ now) cs
    → Waiting state e now s
    → Waiting state e now (run cs s)
unfolding run
run-Waiting state e now [] s f h w = w
run-Waiting state e now (c ∷ cs) s f h w =
    run-Waiting state e now cs (step c s) f.1 h.1 (step-Waiting state e now c s f.0 h.0 w)

redeem-Waiting :
    (state p : Bytes) (e : StateEntry) (now : Time) (s : StateStore)
    → Waiting state e now s
    → (validate_and_consume now state p s).0
      ≡ (if leb now e.expires_at && (e.provider == p) then some e.redirect_uri else none)
unfolding validate_and_consume
redeem-Waiting state p e now s w = ground arith

-- A token started for a provider and a redirect URI, whatever else happens to the store until the
-- callback (other logins, other callbacks, cleanups, none later than `now`), yields that URI at
-- `now` exactly if `now` is within the lifetime and the provider is the same.
pub redeem :
    (b provider uri p : Bytes) (start now : Time) (cs : List (Time × Op)) (s : StateStore)
    → All (λ c. Untouched (hex b) c.1) cs
    → All (λ c. c.0 ≤ now) cs
    → (validate_and_consume now
        (hex b)
        p
        (run cs (generate_with_redirect (ok b) start provider uri s).1)).0
      ≡ (if leb now (start + s.ttl) && (provider == p) then some uri else none)
unfolding generate_with_redirect
redeem b provider uri p start now cs s f h =
    redeem-Waiting (hex b) p entry now _
      (run-Waiting (hex b) entry now cs _ f h (inl (ground (arith, bytes_beq_iff (hex b) (hex b)))))
  where
    entry : StateEntry
    entry = record { provider = provider; redirect_uri = uri; expires_at = start + s.ttl }
