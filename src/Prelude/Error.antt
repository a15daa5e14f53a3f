-- ===== src/Prelude/Error.antt =====
-- errors.go, and Go's error values: the sentinels, the wrapping of `fmt.Errorf` with `%w`,
-- `errors.Is` and the plain comparison `err == target`. Message texts are left out.
use Prim.Native.Nat.{ℕ}
use mathlib.Core.Path.{◌≡◌, refl}
use mathlib.Core.Bool.{Bool, false}
use mathlib.Core.Logic.{◌⊎◌, inl, inr}
use go_cloud_k8s_auth.Prelude.Tests.{eqb}

pub data Sentinel : Type 0 where
  user_not_found already_exists invalid_input unauthorized not_owner admin_required : Sentinel
  provider_error invalid_state user_disabled email_in_use : Sentinel
  session_not_found pat_not_found no_rows : Sentinel

-- A violation names the table's constraint; `other` is any error that the program does not look into.
pub data Constraint : Type 0 where
  users_pkey users_alternate_app_id_key users_email_key unique_provider : Constraint
  sessions_token_hash_key pats_token_hash_key pats_name_check groups_owner_fkey : Constraint

pub data Error : Type 0 where
  sentinel : Sentinel → Error
  pg_unique pg_other : Constraint → Error
  other : ℕ → Error
  wrap : Error → Error

abbrev tag : Sentinel → ℕ
tag user_not_found = 0
tag already_exists = 1
tag invalid_input = 2
tag unauthorized = 3
tag not_owner = 4
tag admin_required = 5
tag provider_error = 6
tag invalid_state = 7
tag user_disabled = 8
tag email_in_use = 9
tag session_not_found = 10
tag pat_not_found = 11
tag no_rows = 12

-- `err == target`
unfoldable pub equals : Error → Sentinel → Bool
equals (sentinel s) t = eqb (tag s) (tag t)
equals _ t = false

-- `errors.Is(err, target)`
unfoldable pub is : Error → Sentinel → Bool
is (sentinel s) t = eqb (tag s) (tag t)
is (wrap e) t = is e t
is _ t = false

-- A Go call that returns `(value, error)`.
pub data Result {ℓ} (A : Type ℓ) : Type ℓ where
  ok : A → Result A
  err : Error → Result A

-- A call that reads and writes a state `S`; what was written stays written after an error.
abbrev pub Action : Type 0 → Type 0 → Type 0
Action S A = S → Result A × S

module _ {S A : Type 0} where
  abbrev pub pure : A → Action S A
  pure a s = (ok a, s)

  abbrev pub raise : Error → Action S A
  raise e s = (err e, s)

  abbrev pub lift : Result A → Action S A
  lift r s = (r, s)

  -- `if err != nil { return fmt.Errorf("...: %w", err) }`, or another change of the error.
  abbrev pub map_err : (Error → Error) → Action S A → Action S A
  map_err f m s = let (r, t) = m s in elim r [ ok a ↦ (ok a, t) | err e ↦ (err (f e), t) ]

infixl 5 ◌>>=◌ ◌>>◌
abbrev pub ◌>>=◌ : {S A B : Type 0} → Action S A → (A → Action S B) → Action S B
◌>>=◌ m f s = let (r, t) = m s in elim r [ ok a ↦ f a t | err e ↦ (err e, t) ]

abbrev pub ◌>>◌ : {S A B : Type 0} → Action S A → Action S B → Action S B
m >> k = m >>= λ _. k

pub Result-cases {ℓ} :
    {A : Type ℓ} (r : Result A) → ((a : A) × (r ≡ ok a)) ⊎ ((e : Error) × (r ≡ err e))
Result-cases (ok a) = inl (a, refl)
Result-cases (err e) = inr (e, refl)
