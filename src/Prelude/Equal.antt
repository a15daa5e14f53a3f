-- ===== src/Prelude/Equal.antt =====
-- The equality test of Go, `==`, for the types of which the program compares values.
use Prim.Native.Nat.{ℕ}
use mathlib.Core.Path.{◌≡◌, refl}
use mathlib.Core.Logic.{◌↔◌, ◌⊎◌, ◌≢◌}
use mathlib.Core.Bool.{Bool, true, false, ◌&&◌}
use mathlib.Core.List.{List, [], ◌∷◌}
use native.Mathlib.Omega.{arith}
use go_cloud_k8s_auth.Prelude.Tests.{eqb}

-- A type with a test that decides equality.
pub record Comparable (A : Type 0) : Type 0 where
  pub same : A → A → Bool
  pub decides : (x y : A) → (same x y ≡ true) ↔ (x ≡ y)

pub eqb-decides : (m n : ℕ) → (eqb m n ≡ true) ↔ (m ≡ n)
eqb-decides m n = ground arith

instance abbrev pub nat_eq : Comparable ℕ
nat_eq = record { decides = eqb-decides; same = eqb }

infix 50 ◌==◌
abbrev pub ◌==◌ : {A : Type 0} ⦃c : Comparable A⦄ → A → A → Bool
◌==◌ ⦃c⦄ = c.same

-- A Go string or byte array: the list of its bytes.
abbrev pub Bytes : Type 0
Bytes = List ℕ

unfoldable pub bytes_beq : Bytes → Bytes → Bool
bytes_beq [] [] = true
bytes_beq [] (_ ∷ _) = false
bytes_beq (_ ∷ _) [] = false
bytes_beq (a ∷ s) (b ∷ t) = eqb a b && bytes_beq s t

pub bytes_beq_iff : (s t : Bytes) → (bytes_beq s t ≡ true) ↔ (s ≡ t)
unfolding bytes_beq
bytes_beq_iff [] [] = ((λ _. refl), (λ _. refl))
bytes_beq_iff [] (b ∷ t) = ((λ h. cc), (λ h. cc))
bytes_beq_iff (a ∷ s) [] = ((λ h. cc), (λ h. cc))
bytes_beq_iff (a ∷ s) (b ∷ t) = ground (arith, bytes_beq_iff s t)

instance abbrev pub bytes_eq : Comparable Bytes
bytes_eq = record { decides = bytes_beq_iff; same = bytes_beq }

pub bytes_beq_self : (s : Bytes) → bytes_beq s s ≡ true
bytes_beq_self s = (bytes_beq_iff s s).1 refl

pub bytes_cases :
    (s t : Bytes) → ((bytes_beq s t ≡ true) × (s ≡ t)) ⊎ ((bytes_beq s t ≡ false) × (s ≢ t))
bytes_cases s t = ground (arith, bytes_beq_iff s t)
