-- ===== src/Storage/Db/Order.antt =====
-- `ORDER BY … DESC` and `LIMIT … OFFSET …` in the queries of pkg/auth/sql.go, session_store.go and
-- pat_store.go.
use Prim.Native.Nat.{ℕ, zero, suc, ◌+◌, ◌≤◌}
use mathlib.Core.List.{Perm}
use mathlib.Core.List.Perm
use go_cloud_k8s_auth.Prelude.{
  Bool, true, false, List, [], ◌∷◌, ◌++◌, ◌≡◌, refl, ap, sym, ◌∙◌, ◌⊎◌, inl, inr, arith, length,
  take, drop, Bool-cases,
}
use go_cloud_k8s_auth.Storage.Db.{insert_sorted, sort_by}

module _ {A : Type 0} (first : A → A → Bool) where
  -- An element goes before the one that follows it, or that one does not go before it.
  abbrev pub IsOrdered : List A → Type 0
  IsOrdered [] = Unit {0}
  IsOrdered (x ∷ []) = Unit {0}
  IsOrdered (x ∷ y ∷ ys) = ((first x y ≡ true) ⊎ (first y x ≡ false)) × IsOrdered (y ∷ ys)

  insert_sorted-perm : (x : A) (ys : List A) → Perm (insert_sorted first x ys) (x ∷ ys)
  unfolding insert_sorted
  insert_sorted-perm x [] = Perm.refl (x ∷ [])
  insert_sorted-perm x (y ∷ ys) = elim (Bool-cases (first y x)) [
    | inl e ↦ rw e (Perm.trans (Perm.cons y (insert_sorted-perm x ys)) (Perm.swap x y ys))
    | inr e ↦ rw e (Perm.refl (x ∷ y ∷ ys))
  ]

  pub sort_by-perm : (xs : List A) → Perm (sort_by first xs) xs
  unfolding sort_by
  sort_by-perm [] = Perm.refl []
  sort_by-perm (x ∷ xs) =
      Perm.trans (insert_sorted-perm x (sort_by first xs)) (Perm.cons x (sort_by-perm xs))

  insert_sorted-IsOrdered :
      (x : A) (ys : List A) → IsOrdered ys → IsOrdered (insert_sorted first x ys)
  unfolding insert_sorted
  insert_sorted-IsOrdered x [] h = tt
  insert_sorted-IsOrdered x (y ∷ []) h = ground arith
  insert_sorted-IsOrdered x (y ∷ z ∷ ys) h = elim (Bool-cases (first y x)) [
    | inr e ↦ rw e (inr e, h)
    | inl e ↦ let rest = insert_sorted-IsOrdered x (z ∷ ys) h.1 in ground arith
  ]

  pub sort_by-IsOrdered : (xs : List A) → IsOrdered (sort_by first xs)
  unfolding sort_by
  sort_by-IsOrdered [] = tt
  sort_by-IsOrdered (x ∷ xs) = insert_sorted-IsOrdered x (sort_by first xs) (sort_by-IsOrdered xs)

module _ {A : Type 0} (first : A → A → Bool) where
  length-insert_sorted : (x : A) (ys : List A) → length (insert_sorted first x ys) ≡ suc (length ys)
  unfolding insert_sorted
  length-insert_sorted x [] = refl
  length-insert_sorted x (y ∷ ys) = ground (arith, length-insert_sorted x ys)

  pub length-sort_by : (xs : List A) → length (sort_by first xs) ≡ length xs
  unfolding sort_by
  length-sort_by [] = refl
  length-sort_by (x ∷ xs) = length-insert_sorted x (sort_by first xs) ∙ ap suc (length-sort_by xs)

suc_add : (m n : ℕ) → suc m + n ≡ suc (m + n)
suc_add m n = omega arith

module _ {A : Type 0} where
  take-drop : (n : ℕ) (xs : List A) → take n xs ++ drop n xs ≡ xs
  take-drop zero xs = refl
  take-drop (suc n) [] = refl
  take-drop (suc n) (x ∷ xs) = ap (λ l. x ∷ l) (take-drop n xs)

  drop_nil : (n : ℕ) (xs : List A) → xs ≡ [] → drop n xs ≡ []
  drop_nil zero xs e = e
  drop_nil (suc n) [] e = refl
  drop_nil (suc n) (x ∷ xs) e = cc

  drop-drop : (m n : ℕ) (xs : List A) → drop n (drop m xs) ≡ drop (m + n) xs
  drop-drop zero n xs = ap (λ k. drop k xs) (omega arith)
  drop-drop (suc m) n [] = drop_nil n [] refl ∙ sym (drop_nil (suc m + n) [] refl)
  drop-drop (suc m) n (x ∷ xs) = drop-drop m n xs ∙ ap (λ k. drop k (x ∷ xs)) (sym (suc_add m n))

  pub drop_all : (n : ℕ) (xs : List A) → length xs ≤ n → drop n xs ≡ []
  drop_all zero [] h = refl
  drop_all zero (x ∷ xs) h = absurd (omega arith)
  drop_all (suc n) [] h = refl
  drop_all (suc n) (x ∷ xs) h = drop_all n xs (omega arith)

  -- A page, and what follows it.
  pub take-drop_page :
      (start size : ℕ) (xs : List A)
      → take size (drop start xs) ++ drop (start + size) xs ≡ drop start xs
  take-drop_page start size xs = rw (← drop-drop start size xs) (take-drop size (drop start xs))
