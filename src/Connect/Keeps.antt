-- ===== src/Connect/Keeps.antt =====
-- Handlers of the Connect servers (pkg/auth/auth_connect_server.go and its siblings) that keep a
-- predicate on the state.
use go_cloud_k8s_auth.Prelude.{Bytes, ◌≡◌, inl, inr, arith}
use go_cloud_k8s_auth.Prelude.Error.{Error, Action}
use go_cloud_k8s_auth.Prelude.Keeps.{Keeps}
use go_cloud_k8s_auth.Platform.{Platform}
use go_cloud_k8s_auth.Connect.Invert.{Reply-cases}
use go_cloud_k8s_auth.Connect.{
  Code, Reply, reply, fail, Handler, serve, ◌>>=◌, Context, intercept, guarded,
}

module _ {S : Type 0} (P : S → Type 0) where
  pub Keeps-serve :
      {A : Type 0} (code : Error → Code) (m : Action S A) → Keeps P m → Keeps P (serve code m)
  Keeps-serve code m h = record { after = λ s p. ground (arith, h.after s p) }

  pub Keeps-then :
      {A B : Type 0} (m : Handler S A) (f : A → Handler S B)
      → Keeps P m
      → ((a : A) → Keeps P (f a))
      → Keeps P (m >>= f)
  Keeps-then {A} {B} m f h k = record { after = λ s p. follow s (m s) (h.after s p) }
    where
      follow : (s : S) (r : Reply A × S) → P r.1 → P (◌>>=◌ (λ _. r) f s).1
      follow s (reply a, t) p = (k a).after t p
      follow s (fail c, t) p = p

  pub Keeps-guarded :
      {A : Type 0} (pf : Platform) (procedure auth : Bytes) (ctx : Context)
      (next : Context → Handler S A)
      → ((ctx' : Context) → intercept pf procedure auth ctx ≡ reply ctx' → Keeps P (next ctx'))
      → Keeps P (guarded pf procedure auth ctx next)
  Keeps-guarded pf procedure auth ctx next h = record {
    after = λ s p. elim (Reply-cases (intercept pf procedure auth ctx)) [
      | inl (ctx', e) ↦ rw (e, guarded) ((h ctx' e).after s p)
      | inr (c, e) ↦ rw (e, guarded) p
    ];
  }
