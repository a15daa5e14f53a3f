-- ===== src/Prelude/Invert.antt =====
-- A chain of actions that succeeds: the results of its parts.
use mathlib.Core.Path.{◌≡◌, refl}
use mathlib.Core.Logic.{◌⊎◌, inl, inr}
use go_cloud_k8s_auth.Prelude.Error.{Error, Result, ok, err, Action, map_err, ◌>>=◌}

module _ {S A : Type 0} where
  map_err-cases :
      (f : Error → Error) (r : Result A × S) (s : S) {a : A} {t : S}
      → map_err f (λ _. r) s ≡ (ok a, t)
      → r ≡ (ok a, t)
  map_err-cases f (ok b, u) s h = h
  map_err-cases f (err e, u) s h = cc

  pub map_err-ok :
      (f : Error → Error) (m : Action S A) (s : S) {a : A} {t : S}
      → map_err f m s ≡ (ok a, t)
      → m s ≡ (ok a, t)
  map_err-ok f m s h = map_err-cases f (m s) s h

  >>=-cases :
      {B : Type 0} (r : Result A × S) (f : A → Action S B) (s : S) {b : B} {t : S}
      → ((λ _. r) >>= f) s ≡ (ok b, t)
      → (a : A) × (u : S) × (r ≡ (ok a, u)) × (f a u ≡ (ok b, t))
  >>=-cases (ok a, u) f s h = (a, u, refl, h)
  >>=-cases (err e, u) f s h = cc

  pub >>=-ok :
      {B : Type 0} (m : Action S A) (f : A → Action S B) (s : S) {b : B} {t : S}
      → (m >>= f) s ≡ (ok b, t)
      → (a : A) × (u : S) × (m s ≡ (ok a, u)) × (f a u ≡ (ok b, t))
  >>=-ok m f s h = >>=-cases (m s) f s h

pub Outcome-cases :
    {S A : Type 0} (r : Result A × S)
    → ((a : A) × (t : S) × (r ≡ (ok a, t))) ⊎ ((e : Error) × (t : S) × (r ≡ (err e, t)))
Outcome-cases (ok a, t) = inl (a, t, refl)
Outcome-cases (err e, t) = inr (e, t, refl)
