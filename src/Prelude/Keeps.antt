-- ===== src/Prelude/Keeps.antt =====
-- An operation that keeps a predicate on the state, whatever it returns.
use mathlib.Core.Bool.{Bool, true, false}
use native.Mathlib.Omega.{arith}
use go_cloud_k8s_auth.Prelude.Tests.{if◌then◌else◌}
use go_cloud_k8s_auth.Prelude.Error.{Error, Result, ok, err, Action, map_err, ◌>>=◌}

pub record Keeps {S B : Type 0} (P : S → Type 0) (m : S → B × S) : Type 0 where
  pub after : (before : S) → P before → P (m before).1

module _ {S : Type 0} (P : S → Type 0) where
  pub Keeps-return : {B : Type 0} (b : B) → Keeps P (λ s. (b, s))
  Keeps-return b = record { after = λ s p. p }

  pub Keeps-if :
      {B : Type 0} (c : Bool) (m k : S → B × S)
      → Keeps P m
      → Keeps P k
      → Keeps P (if c then m else k)
  Keeps-if true m k h l = h
  Keeps-if false m k h l = l

  pub Keeps-bind :
      {A B : Type 0} (m : Action S A) (f : A → Action S B)
      → Keeps P m
      → ((a : A) → Keeps P (f a))
      → Keeps P (m >>= f)
  Keeps-bind {A} {B} m f h k = record { after = λ s p. follow s (m s) (h.after s p) }
    where
      follow : (s : S) (r : Result A × S) → P r.1 → P (◌>>=◌ (λ _. r) f s).1
      follow s (ok a, t) p = (k a).after t p
      follow s (err e, t) p = p

  pub Keeps-map_err :
      {A : Type 0} (f : Error → Error) (m : Action S A) → Keeps P m → Keeps P (map_err f m)
  Keeps-map_err f m h = record { after = λ s p. ground (arith, h.after s p) }
