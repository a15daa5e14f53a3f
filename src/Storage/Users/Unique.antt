-- ===== src/Storage/Users/Unique.antt =====
-- The unique constraints of the table `users` as an invariant.
use go_cloud_k8s_auth.Prelude.{
  ◌==◌, bytes_eq, bytes_beq, bytes_beq_iff, Bool, none, some, List, [], ◌∷◌, ◌++◌, ◌≡◌, ◌≢◌, sym,
  ◌∙◌, inl, inr, arith, All, keep, find, update_where, Bool-cases,
}
use go_cloud_k8s_auth.Prelude.Int.{int_beq_iff, int_eq}
use go_cloud_k8s_auth.Domain.{User, Uuid}
use go_cloud_k8s_auth.Storage.Db.{violation, others}

-- No two of the four unique keys agree.
pub record Distinct (u v : User) : Type 0 where
  pub id : u.id ≢ v.id
  pub app_id : u.alternate_app_id ≢ v.alternate_app_id
  pub email : u.email ≢ v.email
  pub identity : u.provider ≡ v.provider → u.provider_id ≢ v.provider_id

abbrev pub IsUnique : List User → Type 0
IsUnique [] = Unit {0}
IsUnique (u ∷ us) = All (Distinct u) us × IsUnique us

pub Distinct-symm : {u v : User} → Distinct u v → Distinct v u
Distinct-symm d = record {
  id = λ e. d.id (sym e);
  app_id = λ e. d.app_id (sym e);
  email = λ e. d.email (sym e);
  identity = λ p q. d.identity (sym p) (sym q);
}

-- A row that violates nothing is distinct from the others.
pub violation-Distinct : (u : User) (vs : List User) → violation u vs ≡ none → All (Distinct u) vs
unfolding violation
violation-Distinct u [] h = tt
violation-Distinct u (v ∷ vs) h = (
  record {
    id = λ e. ground (arith, bytes_beq_iff v.id u.id, sym e);
    app_id = λ e. ground (arith, int_beq_iff v.alternate_app_id u.alternate_app_id, sym e);
    email = λ e. ground (arith, bytes_beq_iff v.email u.email, sym e);
    identity = λ e f. ground (
      arith,
      bytes_beq_iff v.provider u.provider,
      bytes_beq_iff v.provider_id u.provider_id,
      sym e,
      sym f,
    );
  },
  violation-Distinct u vs (ground arith),
)

append-Distinct :
    (v u : User) (us : List User)
    → All (Distinct v) us
    → Distinct v u
    → All (Distinct v) (us ++ u ∷ [])
append-Distinct v u [] h d = (d, tt)
append-Distinct v u (x ∷ us) h d = (h.0, append-Distinct v u us h.1 d)

pub append-IsUnique :
    (u : User) (us : List User) → All (Distinct u) us → IsUnique us → IsUnique (us ++ u ∷ [])
append-IsUnique u [] h k = (tt, tt)
append-IsUnique u (x ∷ us) h k =
    (append-Distinct x u us k.0 (Distinct-symm h.0), append-IsUnique u us h.1 k.1)

keep-Distinct :
    (u : User) (p : User → Bool) (us : List User)
    → All (Distinct u) us
    → All (Distinct u) (keep p us)
keep-Distinct u p [] h = tt
keep-Distinct u p (x ∷ us) h = ground (arith, keep-Distinct u p us h.1)

pub keep-IsUnique : (p : User → Bool) (us : List User) → IsUnique us → IsUnique (keep p us)
keep-IsUnique p [] h = tt
keep-IsUnique p (x ∷ us) h = ground (arith, keep-Distinct x p us h.0, keep-IsUnique p us h.1)

-- A row that may take the place of the one with its id.
abbrev pub Clear : User → List User → Type 0
Clear u = All λ v. v.id ≢ u.id → Distinct u v

pub others-Clear : (u : User) (vs : List User) → All (Distinct u) (others u.id vs) → Clear u vs
others-Clear u [] h = tt
others-Clear u (v ∷ vs) h = elim (Bool-cases (bytes_beq v.id u.id)) [
  | inl e ↦ ((λ n. absurd (n ((bytes_beq_iff v.id u.id).0 e))), others-Clear u vs (rw e at h))
  | inr e ↦ let k = rw e at h in ((λ n. k.0), others-Clear u vs k.1)
]

-- Writing a row over the one with its id.
abbrev pub write : User → List User → List User
write u = update_where (λ v. v.id == u.id) (λ _. u)

write-Distinct :
    (x u : User) (us : List User)
    → All (Distinct x) us
    → Distinct x u
    → All (Distinct x) (write u us)
write-Distinct x u [] h d = tt
write-Distinct x u (y ∷ us) h d = ground (arith, write-Distinct x u us h.1 d)

write-Clear :
    (x u : User) (us : List User)
    → x.id ≡ u.id
    → All (Distinct x) us
    → Clear u us
    → All (Distinct u) (write u us)
write-Clear x u [] e h c = tt
write-Clear x u (y ∷ us) e h c =
    let away : y.id ≢ u.id = λ f. h.0.id (e ∙ sym f) in
    ground (arith, bytes_beq_iff y.id u.id, away, c.0 away, write-Clear x u us e h.1 c.1)

pub write-IsUnique : (u : User) (us : List User) → Clear u us → IsUnique us → IsUnique (write u us)
write-IsUnique u [] c k = tt
write-IsUnique u (x ∷ us) c k = elim (Bool-cases (bytes_beq x.id u.id)) [
  | inl e ↦
      rw e (write-Clear x u us ((bytes_beq_iff x.id u.id).0 e) k.0 c.1, write-IsUnique u us c.1 k.1)
  | inr e ↦ rw e (
    write-Distinct x u us k.0
        (Distinct-symm (c.0 (λ f. ground (arith, bytes_beq_iff x.id u.id, f)))),
    write-IsUnique u us c.1 k.1,
  )
]

abbrev pub SameKeys : User → User → Type 0
SameKeys u v =
    (u.id ≡ v.id)
    × (u.email ≡ v.email)
    × (u.provider ≡ v.provider)
    × (u.provider_id ≡ v.provider_id)
    × (u.alternate_app_id ≡ v.alternate_app_id)

same-Distinct : (u v x : User) → SameKeys u v → Distinct v x → Distinct u x
same-Distinct u v x s d = record {
  id = λ e. d.id (sym s.0 ∙ e);
  app_id = λ e. d.app_id (sym s.4 ∙ e);
  email = λ e. d.email (sym s.1 ∙ e);
  identity = λ p q. d.identity (sym s.2 ∙ p) (sym s.3 ∙ q);
}

same-All : (u v : User) (us : List User) → SameKeys u v → All (Distinct v) us → All (Distinct u) us
same-All u v [] s h = tt
same-All u v (x ∷ us) s h = (same-Distinct u v x s h.0, same-All u v us s h.1)

Clear-All : (u : User) (us : List User) → All (Distinct u) us → Clear u us
Clear-All u [] h = tt
Clear-All u (x ∷ us) h = ((λ _. h.0), Clear-All u us h.1)

find-Distinct :
    (id : Uuid) (x v : User) (us : List User)
    → All (Distinct x) us
    → find (λ w. w.id == id) us ≡ some v
    → Distinct x v
find-Distinct id x v [] k h = cc
find-Distinct id x v (y ∷ us) k h = elim (Bool-cases (bytes_beq y.id id)) [
  | inl e ↦ let same : y ≡ v = ground arith in rw (← same) k.0
  | inr e ↦ find-Distinct id x v us k.1 (ground arith)
]

-- A row with the keys of the one found under its id may replace it.
pub find-Clear :
    (id : Uuid) (u v : User) (us : List User)
    → SameKeys u v
    → IsUnique us
    → find (λ w. w.id == id) us ≡ some v
    → Clear u us
find-Clear id u v [] s k h = tt
find-Clear id u v (x ∷ us) s k h = elim (Bool-cases (bytes_beq x.id id)) [
  | inl e ↦
      let same : x ≡ v = ground arith in
      ((λ n. absurd (n (ground arith))), Clear-All u us (same-All u x us (ground arith) k.0))
  | inr e ↦ (
    (λ n. same-Distinct u v x s (Distinct-symm (find-Distinct id x v us k.0 (ground arith)))),
    find-Clear id u v us s k.1 (ground arith),
  )
]

module _ (p : User → Bool) (f : User → User) (same : (u : User) → SameKeys (f u) u) where
  rewrite-Distinct :
      (u : User) (us : List User) → All (Distinct u) us → All (Distinct u) (update_where p f us)
  rewrite-Distinct u [] h = tt
  rewrite-Distinct u (x ∷ us) h = ground (
    arith,
    rewrite-Distinct u us h.1,
    Distinct-symm (same-Distinct (f x) x u (same x) (Distinct-symm h.0)),
  )

  -- A rewrite that leaves the keys alone.
  pub rewrite-IsUnique : (us : List User) → IsUnique us → IsUnique (update_where p f us)
  rewrite-IsUnique [] k = tt
  rewrite-IsUnique (x ∷ us) k = ground (
    arith,
    rewrite-IsUnique us k.1,
    rewrite-Distinct x us k.0,
    same-All (f x) x (update_where p f us) (same x),
  )
