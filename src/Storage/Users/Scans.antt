-- ===== src/Storage/Users/Scans.antt =====
-- `ORDER BY created_at DESC` on rows that come in any order (`listUsers` of pkg/auth/sql.go).
use mathlib.Core.List.{Permᴰ}
use go_cloud_k8s_auth.Prelude.{
  Bool, true, false, Option, none, some, List, [], ◌∷◌, ◌≡◌, refl, ap, sym, ◌∙◌, ◌⊎◌, inl, inr,
  arith, ltb, Bool-cases, All, ◌≢◌, subst,
}
use go_cloud_k8s_auth.Domain.{Time, User}
use go_cloud_k8s_auth.Storage.Db.{sort_by, insert_sorted}
use go_cloud_k8s_auth.Storage.UserRows.{newer}

-- Newest first, and a missing time before all others.
abbrev pub is_newer : User → User → Bool
is_newer u v = newer u.created_at v.created_at

-- No two users were created at the same time.
abbrev pub HasDates : List User → Type 0
HasDates [] = Unit {0}
HasDates (u ∷ us) = All (λ v. u.created_at ≢ v.created_at) us × HasDates us

compare :
    (a b : Option Time)
    → (a ≡ b)
      ⊎ (((newer a b ≡ true) × (newer b a ≡ false)) ⊎ ((newer a b ≡ false) × (newer b a ≡ true)))
compare none none = inl refl
compare none (some b) = inr (inl (refl, refl))
compare (some a) none = inr (inr (refl, refl))
compare (some a) (some b) = elim (Bool-cases (ltb b a)) [
  | inl e ↦ inr (inl (e, ground arith))
  | inr e ↦ elim (Bool-cases (ltb a b)) [ inl f ↦ inr (inr (e, f)) | inr f ↦ inl (ground arith) ]
]

-- What comes after nothing that another comes after.
between : (a b c : Option Time) → newer c a ≡ true → newer c b ≡ false → newer b a ≡ true
between a none c h k = refl
between none (some b) none h k = cc
between none (some b) (some c) h k = cc
between (some a) (some b) none h k = cc
between (some a) (some b) (some c) h k = ground arith

swap_inserts :
    (x y : User) (us : List User)
    → is_newer x y ≡ true
    → is_newer y x ≡ false
    → insert_sorted is_newer x (insert_sorted is_newer y us)
      ≡ insert_sorted is_newer y (insert_sorted is_newer x us)
unfolding insert_sorted
swap_inserts x y [] h k = ground arith
swap_inserts x y (z ∷ us) h k = ground (
  arith,
  swap_inserts x y us h k,
  between x.created_at y.created_at z.created_at,
  between y.created_at x.created_at z.created_at,
)

All-rearranged : (P : User → Type 0) {us vs : List User} → Permᴰ us vs → All P us → All P vs
All-rearranged P Permᴰ.nil h = tt
All-rearranged P (Permᴰ.cons e p) (h, k) = (subst P e h, All-rearranged P p k)
All-rearranged P (Permᴰ.swap e f) (h, (k, l)) = (subst P f k, (subst P e h, l))
All-rearranged P (Permᴰ.trans p q) h = All-rearranged P q (All-rearranged P p h)

HasDates-rearranged : {us vs : List User} → Permᴰ us vs → HasDates us → HasDates vs
HasDates-rearranged Permᴰ.nil d = tt
HasDates-rearranged (Permᴰ.cons {l₂ = l₂} e p) (h, d) = (
  subst (λ u. All (λ v. u.created_at ≢ v.created_at) l₂) e (All-rearranged _ p h),
  HasDates-rearranged p d,
)
HasDates-rearranged (Permᴰ.swap {a = a} {l = l} e f) ((h, k), (m, d)) = (
  (
    λ g. h (ap (λ u. u.created_at) e ∙ (sym g ∙ sym (ap (λ u. u.created_at) f))),
    subst (λ u. All (λ v. u.created_at ≢ v.created_at) l) f m,
  ),
  (subst (λ u. All (λ v. u.created_at ≢ v.created_at) l) e k, d),
)
HasDates-rearranged (Permᴰ.trans p q) d = HasDates-rearranged q (HasDates-rearranged p d)

inserts_commute :
    (x y : User) (us : List User)
    → x.created_at ≢ y.created_at
    → insert_sorted is_newer x (insert_sorted is_newer y us)
      ≡ insert_sorted is_newer y (insert_sorted is_newer x us)
inserts_commute x y us d = elim (compare x.created_at y.created_at) [
  | inl e ↦ absurd (d e)
  | inr (inl (h, k)) ↦ swap_inserts x y us h k
  | inr (inr (h, k)) ↦ sym (swap_inserts y x us k h)
]

-- Rows with different dates are sorted to the same list, whatever order they come in.
pub sort_by-rearranged :
    {us vs : List User} → Permᴰ us vs → HasDates us → sort_by is_newer us ≡ sort_by is_newer vs
unfolding sort_by
sort_by-rearranged Permᴰ.nil d = refl
sort_by-rearranged (Permᴰ.cons {a = a} {b = b} {l₁ = l₁} {l₂ = l₂} e p) d =
    ap (λ l. insert_sorted is_newer a l) (sort_by-rearranged p d.1)
    ∙ ap (λ u. insert_sorted is_newer u (sort_by is_newer l₂)) e
sort_by-rearranged (Permᴰ.swap {a = a} {b = b} {a' = a'} {b' = b'} {l = l} e f) d =
    inserts_commute a b (sort_by is_newer l) d.0.0
    ∙ (ap (λ u. insert_sorted is_newer u (insert_sorted is_newer a (sort_by is_newer l))) f
        ∙ ap (λ u. insert_sorted is_newer a' (insert_sorted is_newer u (sort_by is_newer l))) e)
sort_by-rearranged (Permᴰ.trans p q) d =
    sort_by-rearranged p d ∙ sort_by-rearranged q (HasDates-rearranged p d)
