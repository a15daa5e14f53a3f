-- ===== src/Storage/Owned.antt =====
-- The foreign keys of `sessions` and `personal_access_tokens` to `users` (the migrations under
-- cmd/goCloudAuthServer/db), and the statements of pkg/auth/sql.go.
use go_cloud_k8s_auth.Prelude.{
  Bool, true, false, not, List, [], ◌∷◌, ◌++◌, ◌≡◌, ◌==◌, bytes_eq, bytes_beq, bytes_beq_iff, any,
  keep, inl, inr, arith, update_where, Bool-cases, All,
}
use go_cloud_k8s_auth.Domain.{Uuid, User, Session, PersonalAccessToken}
use go_cloud_k8s_auth.Storage.Db.{Db, others}
use go_cloud_k8s_auth.Storage.Users.Reads.{OnTables}
use go_cloud_k8s_auth.Storage.Users.Writes.{UserRows}
use go_cloud_k8s_auth.Storage.Sessions.Keeps.{SessionRows}
use go_cloud_k8s_auth.Storage.Pats.Keeps.{PatRows}

-- A user with the id is in the table.
abbrev pub has_id : Uuid → User → Bool
has_id x u = u.id == x

abbrev pub IsPresent : List User → Uuid → Type 0
IsPresent us x = any (has_id x) us ≡ true

-- Every session and every token belongs to a user of the table.
abbrev pub Owned : List User → List Session → List PersonalAccessToken → Type 0
Owned us ss ps = All (λ s. IsPresent us s.user_id) ss × All (λ p. IsPresent us p.user_id) ps

module _ {A : Type 0} (P : A → Type 0) where
  pub All-append : (xs : List A) (x : A) → All P xs → P x → All P (xs ++ x ∷ [])
  All-append [] x a h = (h, tt)
  All-append (y ∷ xs) x (k, a) h = (k, All-append xs x a h)

  pub All-update :
      (p : A → Bool) (f : A → A) (xs : List A)
      → ((x : A) → P x → P (f x))
      → All P xs
      → All P (update_where p f xs)
  All-update p f [] h a = tt
  All-update p f (x ∷ xs) h (k, a) = elim (Bool-cases (p x)) [
    | inl e ↦ rw e (h x k, All-update p f xs h a)
    | inr e ↦ rw e (k, All-update p f xs h a)
  ]

  All-map : (Q : A → Type 0) (xs : List A) → ((x : A) → P x → Q x) → All P xs → All Q xs
  All-map Q [] h a = tt
  All-map Q (x ∷ xs) h (k, a) = (h x k, All-map Q xs h a)

  All-kept :
      (Q : A → Type 0) (p : A → Bool) (xs : List A)
      → ((x : A) → p x ≡ true → P x → Q x)
      → All P xs
      → All Q (keep p xs)
  All-kept Q p [] h a = tt
  All-kept Q p (x ∷ xs) h (k, a) = elim (Bool-cases (p x)) [
    | inl e ↦ rw e (h x e k, All-kept Q p xs h a)
    | inr e ↦ rw e (All-kept Q p xs h a)
  ]

IsPresent-append :
    (us : List User) (u : User) (x : Uuid) → IsPresent us x → IsPresent (us ++ u ∷ []) x
IsPresent-append [] u x h = ground arith
IsPresent-append (v ∷ us) u x h = ground (arith, IsPresent-append us u x)

-- A rewriting that keeps the ids of the rows that it changes.
IsPresent-update :
    (p : User → Bool) (f : User → User) (us : List User) (x : Uuid)
    → ((u : User) → p u ≡ true → (f u).id ≡ u.id)
    → IsPresent us x
    → IsPresent (update_where p f us) x
IsPresent-update p f [] x k h = h
IsPresent-update p f (u ∷ us) x k h = elim (Bool-cases (p u)) [
  | inl e ↦
      let same = k u e in
      let rest = IsPresent-update p f us x k in rw (e, same) (ground (arith, rest))
  | inr e ↦ let rest = IsPresent-update p f us x k in rw e (ground (arith, rest))
]

IsPresent-others :
    (id : Uuid) (us : List User) (x : Uuid)
    → bytes_beq x id ≡ false
    → IsPresent us x
    → IsPresent (others id us) x
IsPresent-others id [] x n h = h
IsPresent-others id (u ∷ us) x n h = ground (
  arith,
  IsPresent-others id us x n,
  bytes_beq_iff u.id id,
  bytes_beq_iff u.id x,
  bytes_beq_iff x id,
)

-- More ids in the table.
Owned-more :
    (us vs : List User) (ss : List Session) (ps : List PersonalAccessToken)
    → ((x : Uuid) → IsPresent us x → IsPresent vs x)
    → Owned us ss ps
    → Owned vs ss ps
Owned-more us vs ss ps h (a, b) =
    (All-map _ _ ss (λ s. h s.user_id) a, All-map _ _ ps (λ p. h p.user_id) b)

Owned-append :
    (us : List User) (ss : List Session) (ps : List PersonalAccessToken) (u : User)
    → Owned us ss ps
    → Owned (us ++ u ∷ []) ss ps
Owned-append us ss ps u = Owned-more us (us ++ u ∷ []) ss ps (IsPresent-append us u)

Owned-update :
    (us : List User) (ss : List Session) (ps : List PersonalAccessToken) (p : User → Bool)
    (f : User → User)
    → ((u : User) → p u ≡ true → (f u).id ≡ u.id)
    → Owned us ss ps
    → Owned (update_where p f us) ss ps
Owned-update us ss ps p f h =
    Owned-more us (update_where p f us) ss ps (λ x. IsPresent-update p f us x h)

-- The deletion of a user with his sessions and tokens.
Owned-others :
    (us : List User) (ss : List Session) (ps : List PersonalAccessToken) (id : Uuid)
    → Owned us ss ps
    → Owned
        (others id us)
        (keep (λ s. not (s.user_id == id)) ss)
        (keep (λ p. not (p.user_id == id)) ps)
Owned-others us ss ps id (a, b) = (
  All-kept _ _ _ ss (λ s k. IsPresent-others id us s.user_id (ground arith)) a,
  All-kept _ _ _ ps (λ p k. IsPresent-others id us p.user_id (ground arith)) b,
)

pub Owned-SessionRows : SessionRows Owned (λ _. Unit {0})
Owned-SessionRows = record {
  insert = λ us ss ps s _ h (a, b). (All-append _ ss s a h, b);
  change = λ us ss ps p f h _ (a, b). (All-update _ p f ss (λ s k. rw (h s) k) a, b);
}

pub Owned-PatRows : PatRows Owned
Owned-PatRows = record {
  insert = λ us ss ps p h (a, b). (a, All-append _ ps p b h);
  change = λ us ss ps test f h (a, b). (a, All-update _ test f ps (λ p k. rw (h p) k) b);
}

pub Owned-UserRows : UserRows Owned
Owned-UserRows = record { insert = Owned-append; change = Owned-update; remove = Owned-others }

-- Every session and token has its user.
abbrev pub OwnedRows : Db → Type 0
OwnedRows = OnTables Owned
