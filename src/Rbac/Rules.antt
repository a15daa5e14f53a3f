-- ===== src/Rbac/Rules.antt =====
-- The rules of pkg/rbac/simple_enforcer.go, over membership of the role in the list.
use mathlib.Core.List.{Mem, mem-cons, not-mem-nil, mem-cons_self, mem-cons_of_mem}
use mathlib.Core.Logic.Or
use mathlib.Core.Logic.{◌∨₁◌}
use mathlib.Core.Bool.{Bool-set}
use go_cloud_k8s_auth.Prelude.{
  some, Bytes, bytes_beq_iff, bytes_cases, ◌≡◌, ◌↔◌, inl, inr, true, Bool-cases, List, [], ◌∷◌,
  arith, sym,
}
use go_cloud_k8s_auth.Prelude.Strings.{str}
use go_cloud_k8s_auth.Rbac.{has_role, is_allowed}

pub has_role-mem :
    (roles : List Bytes) (role : Bytes) → has_role (some roles) role ≡ true → Mem role roles
unfolding has_role
has_role-mem [] role h = cc
has_role-mem (r ∷ roles) role h = elim (bytes_cases r role) [
  | inl (b, e) ↦ rw e mem-cons_self
  | inr (b, e) ↦ mem-cons_of_mem _ (has_role-mem roles role (rw b at h))
]

pub mem-has_role :
    (roles : List Bytes) (role : Bytes) → Mem role roles → has_role (some roles) role ≡ true
unfolding has_role
mem-has_role [] role m = absurd (not-mem-nil m)
mem-has_role (r ∷ roles) role m =
    Or.elim (Bool-set _ _) (mem-cons.0 m) (λ e. ground (arith, bytes_beq_iff r role, sym e))
      λ m'. ground (arith, mem-has_role roles role m')

-- An action is allowed exactly when the roles, where there are any, hold "admin", or hold "user" and the action is "read".
-- The resource plays no part.
pub is_allowed_iff :
    (roles : List Bytes) (action resource : Bytes)
    → (is_allowed (some roles) action resource ≡ true)
      ↔ (Mem (str "admin") roles ∨₁ (Mem (str "user") roles × (action ≡ str "read")))
unfolding is_allowed
is_allowed_iff roles action resource = (allowed, granted)
  where
    allowed :
        is_allowed (some roles) action resource ≡ true
        → Mem (str "admin") roles ∨₁ (Mem (str "user") roles × (action ≡ str "read"))
    allowed h = elim (Bool-cases (has_role (some roles) (str "admin"))) [
      | inl a ↦ Or.inl (has_role-mem roles (str "admin") a)
      | inr a ↦ elim (Bool-cases (has_role (some roles) (str "user"))) [
        | inl u ↦
            Or.inr
              (has_role-mem roles (str "user") u, ground (arith, bytes_beq_iff action (str "read")))
        | inr u ↦ ground arith
      ]
    ]

    granted :
        Mem (str "admin") roles ∨₁ (Mem (str "user") roles × (action ≡ str "read"))
        → is_allowed (some roles) action resource ≡ true
    granted d =
        Or.elim (Bool-set _ _) d (λ m. ground (arith, mem-has_role roles (str "admin") m))
          λ m.
            ground (arith, mem-has_role roles (str "user") m.0, bytes_beq_iff action (str "read"))
