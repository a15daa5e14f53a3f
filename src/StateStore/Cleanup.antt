-- ===== src/StateStore/Cleanup.antt =====
-- The background goroutine `cleanup` of pkg/auth/state_store.go, and the replies that callers see.
use go_cloud_k8s_auth.Prelude.{
  ◌≤◌, ◌<◌, Bytes, bytes_beq_iff, Option, none, some, List, [], ◌∷◌, ◌≡◌, refl, arith,
}
use go_cloud_k8s_auth.Prelude.Error.{Result, ok, err}
use go_cloud_k8s_auth.Domain.{Time}
use go_cloud_k8s_auth.StateStore.{
  StateStore, StateEntry, generate_with_redirect, validate_and_consume, cleanup,
}
use go_cloud_k8s_auth.StateStore.History.{Op, starts, consumes, ticks}

-- What the callers receive: the tokens, and the outcomes of the callbacks.
pub data Reply : Type 0 where
  started : Result Bytes → Reply
  consumed : Option Bytes → Reply

abbrev pub replies : List (Time × Op) → StateStore → List Reply
replies [] s = []
replies ((now, starts random provider uri) ∷ cs) s =
    let (r, t) = generate_with_redirect random now provider uri s in started r ∷ replies cs t
replies ((now, consumes state provider) ∷ cs) s =
    let (r, t) = validate_and_consume now state provider s in consumed r ∷ replies cs t
replies ((now, ticks) ∷ cs) s = replies cs (cleanup now s)

abbrev pub without_ticks : List (Time × Op) → List (Time × Op)
without_ticks [] = []
without_ticks ((now, ticks) ∷ cs) = without_ticks cs
without_ticks ((now, starts random provider uri) ∷ cs) =
    (now, starts random provider uri) ∷ without_ticks cs
without_ticks ((now, consumes state provider) ∷ cs) =
    (now, consumes state provider) ∷ without_ticks cs

-- The clock does not run backwards, from the time `t` on.
abbrev pub InOrder : Time → List (Time × Op) → Type 0
InOrder t [] = Unit {0}
InOrder t ((now, op) ∷ cs) = (t ≤ now) × InOrder now cs

-- At one key: the same entry, or none where the other store still holds one that is too old.
abbrev Close : Time → Option StateEntry → Option StateEntry → Type 0
Close t (some e) (some f) = e ≡ f
Close t none none = Unit {0}
Close t none (some f) = f.expires_at < t
Close t (some e) none = ⊥

record Cleaned (t : Time) (s u : StateStore) : Type 0 where
  ttl : s.ttl ≡ u.ttl
  at_key : (k : Bytes) → Close t (s.states k) (u.states k)

Close-later : {t now : Time} (a b : Option StateEntry) → t ≤ now → Close t a b → Close now a b
Close-later (some e) (some f) h c = c
Close-later none none h c = tt
Close-later none (some f) h c = omega arith
Close-later (some e) none h c = c

Cleaned-later : {t now : Time} (s u : StateStore) → t ≤ now → Cleaned t s u → Cleaned now s u
Cleaned-later s u h c = record {
  ttl = c.ttl;
  at_key = λ k. Close-later (s.states k) (u.states k) h (c.at_key k);
}

starts-Cleaned :
    (now : Time) (random : Result Bytes) (p uri : Bytes) (s u : StateStore)
    → Cleaned now s u
    → ((generate_with_redirect random now p uri s).0
        ≡ (generate_with_redirect random now p uri u).0)
      × Cleaned now
          (generate_with_redirect random now p uri s).1
          (generate_with_redirect random now p uri u).1
unfolding generate_with_redirect
starts-Cleaned now (err e) p uri s u c = (refl, c)
starts-Cleaned now (ok b) p uri s u c =
    (refl, record { ttl = c.ttl; at_key = λ k. ground (arith, c.at_key k, c.ttl) })

consumes-Cleaned :
    (now : Time) (state p : Bytes) (s u : StateStore)
    → Cleaned now s u
    → ((validate_and_consume now state p s).0 ≡ (validate_and_consume now state p u).0)
      × Cleaned now (validate_and_consume now state p s).1 (validate_and_consume now state p u).1
unfolding validate_and_consume
consumes-Cleaned now state p s u c = (
  ground (arith, c.at_key state),
  record {
    ttl = ground (arith, c.ttl);
    at_key = λ k. ground (arith, c.at_key state, c.at_key k, bytes_beq_iff k state);
  },
)

ticks-Cleaned : (now : Time) (s u : StateStore) → Cleaned now s u → Cleaned now (cleanup now s) u
unfolding cleanup
ticks-Cleaned now s u c = record { ttl = c.ttl; at_key = λ k. ground (arith, c.at_key k) }

replies-Cleaned :
    (t : Time) (cs : List (Time × Op)) (s u : StateStore)
    → InOrder t cs
    → Cleaned t s u
    → replies cs s ≡ replies (without_ticks cs) u
replies-Cleaned t [] s u o c = refl
replies-Cleaned t ((now, starts random p uri) ∷ cs) s u o c =
    let (same, next) = starts-Cleaned now random p uri s u (Cleaned-later s u o.0 c) in
    cc (same, replies-Cleaned now cs _ _ o.1 next)
replies-Cleaned t ((now, consumes state p) ∷ cs) s u o c =
    let (same, next) = consumes-Cleaned now state p s u (Cleaned-later s u o.0 c) in
    cc (same, replies-Cleaned now cs _ _ o.1 next)
replies-Cleaned t ((now, ticks) ∷ cs) s u o c =
    replies-Cleaned now cs (cleanup now s) u o.1 (ticks-Cleaned now s u (Cleaned-later s u o.0 c))

Close-self : (t : Time) (o : Option StateEntry) → Close t o o
Close-self t none = tt
Close-self t (some e) = refl

-- On a clock that does not run backwards, the replies to any history of starts, callbacks and
-- cleanups are those of the same history with the cleanups left out.
pub cleanup_unobservable :
    (t : Time) (cs : List (Time × Op)) (s : StateStore)
    → InOrder t cs
    → replies cs s ≡ replies (without_ticks cs) s
cleanup_unobservable t cs s o =
    replies-Cleaned t cs s s o (record { ttl = refl; at_key = λ k. Close-self t (s.states k) })
