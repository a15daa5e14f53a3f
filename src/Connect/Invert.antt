-- ===== src/Connect/Invert.antt =====
-- A chain of handlers that replies: the results of its parts.
use go_cloud_k8s_auth.Prelude.{◌≡◌, refl, arith, ◌⊎◌, inl, inr}
use go_cloud_k8s_auth.Prelude.Error.{Error, Result, ok, err, Action}
use go_cloud_k8s_auth.Connect.{Code, Reply, reply, fail, Handler, serve, ◌>>=◌}

module _ {S A : Type 0} where
  serve-cases :
      (code : Error → Code) (r : Result A × S) (s : S) {a : A} {t : S}
      → serve code (λ _. r) s ≡ (reply a, t)
      → r ≡ (ok a, t)
  serve-cases code (ok b, u) s h = ground arith
  serve-cases code (err e, u) s h = ground arith

  pub serve-reply :
      (code : Error → Code) (m : Action S A) (s : S) {a : A} {t : S}
      → serve code m s ≡ (reply a, t)
      → m s ≡ (ok a, t)
  serve-reply code m s h = serve-cases code (m s) s h

  >>=-cases :
      {B : Type 0} (r : Reply A × S) (f : A → Handler S B) (s : S) {b : B} {t : S}
      → ((λ _. r) >>= f) s ≡ (reply b, t)
      → (a : A) × (u : S) × (r ≡ (reply a, u)) × (f a u ≡ (reply b, t))
  >>=-cases (reply a, u) f s h = (a, u, refl, h)
  >>=-cases (fail c, u) f s h = ground arith

  pub >>=-reply :
      {B : Type 0} (m : Handler S A) (f : A → Handler S B) (s : S) {b : B} {t : S}
      → (m >>= f) s ≡ (reply b, t)
      → (a : A) × (u : S) × (m s ≡ (reply a, u)) × (f a u ≡ (reply b, t))
  >>=-reply m f s h = >>=-cases (m s) f s h

pub Reply-cases :
    {A : Type 0} (r : Reply A) → ((a : A) × (r ≡ reply a)) ⊎ ((c : Code) × (r ≡ fail c))
Reply-cases (reply a) = inl (a, refl)
Reply-cases (fail c) = inr (c, refl)
