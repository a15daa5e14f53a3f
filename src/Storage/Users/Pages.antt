-- ===== src/Storage/Users/Pages.antt =====
-- The pages of `ListUsers` (pkg/auth/storage_postgres.go, pkg/auth/sql.go).
use go_cloud_k8s_auth.Prelude.{
  ℕ, zero, suc, ◌+◌, ◌*◌, ◌≤◌, Bool, Option, List, [], ◌∷◌, ◌++◌, map, ◌≡◌, refl, ap, sym, ◌∙◌,
  arith, length, take, drop, keep,
}
use mathlib.Core.List.{Perm, Permᴰ}
use mathlib.Core.List.Permᴰ
use go_cloud_k8s_auth.Prelude.Int.{ℤ, pos}
use go_cloud_k8s_auth.Prelude.Error.{Result, ok, err}
use go_cloud_k8s_auth.Domain.{Time, User, UserList}
use go_cloud_k8s_auth.Platform.{Platform}
use go_cloud_k8s_auth.Storage.Db.{Db, query, sort_by}
use go_cloud_k8s_auth.Storage.Db.Order.{
  IsOrdered, sort_by-perm, length-sort_by, sort_by-IsOrdered, take-drop_page, drop_all,
}
use go_cloud_k8s_auth.Storage.UserRows.{to_list_row, passes, inverted}
use go_cloud_k8s_auth.Storage.Users.{list}
use go_cloud_k8s_auth.Storage.Users.Scans.{is_newer, HasDates, sort_by-rearranged}

abbrev pub rows_of : Result (List UserList) → List UserList
rows_of (ok rows) = rows
rows_of (err _) = []

-- A query comes upon every row that it selects, once, in an order of its own.
abbrev pub Rearranges : Platform → Type 0
Rearranges pf =
    (at : Time) (limit offset : ℤ) (us : List User) → Permᴰ (pf.scan at limit offset us) us

length-map : {A B : Type 0} (f : A → B) (xs : List A) → length (map f xs) ≡ length xs
length-map f [] = refl
length-map f (x ∷ xs) = ap suc (length-map f xs)

module _ (pf : Platform) (now : Time) (filter : Option Bool) (size : ℕ) (db : Db) where
  -- The rows of `n` pages, the first of which begins at an offset.
  abbrev pub collected : ℕ → ℕ → List UserList
  collected zero start = []
  collected (suc n) start =
      rows_of (list pf now (pos start) (pos size) filter db).0 ++ collected n (start + size)

  abbrev chosen : List User
  chosen = keep (passes (inverted filter)) db.users

  abbrev sorted : List User
  sorted = sort_by is_newer chosen

  -- One page, of one query.
  page_rows_scanned :
      (start : ℕ)
      → db.faults ≡ []
      → rows_of (list pf now (pos start) (pos size) filter db).0
        ≡ take size (
            drop start
              (map to_list_row (sort_by is_newer (pf.scan now (pos size) (pos start) chosen))))
  unfolding list query
  page_rows_scanned start h = rw h refl

  page_rows :
      (start : ℕ)
      → Rearranges pf
      → HasDates chosen
      → db.faults ≡ []
      → rows_of (list pf now (pos start) (pos size) filter db).0
        ≡ take size (drop start (map to_list_row sorted))
  page_rows start scans dates h =
      page_rows_scanned start h
      ∙ ap (λ us. take size (drop start (map to_list_row us)))
          (sym (sort_by-rearranged (Permᴰ.symm (scans now (pos size) (pos start) chosen)) dates))

  collected-drop :
      (n start : ℕ)
      → Rearranges pf
      → HasDates chosen
      → db.faults ≡ []
      → length (map to_list_row sorted) ≤ start + n * size
      → collected n start ≡ drop start (map to_list_row sorted)
  collected-drop zero start scans dates h l =
      sym (drop_all start (map to_list_row sorted) (omega arith))
  collected-drop (suc n) start scans dates h l =
      rw
        (page_rows start scans dates h, collected-drop n (start + size) scans dates h (grind arith))
        (take-drop_page start size (map to_list_row sorted))

  -- Pages that hold at least as many rows as there are give, put together, every user that passes the
  -- filter exactly once, the newest first, where no query fails, no two of these users were created at
  -- the same time, and a query comes upon every row once, in whatever order.
  pub collected_all :
      (n : ℕ)
      → Rearranges pf
      → HasDates (keep (passes (inverted filter)) db.users)
      → db.faults ≡ []
      → length (keep (passes (inverted filter)) db.users) ≤ n * size
      → (us : List User) × Perm us (keep (passes (inverted filter)) db.users)
        × IsOrdered is_newer us
        × (collected n 0 ≡ map to_list_row us)
  collected_all n scans dates h l = (
    sorted,
    sort_by-perm is_newer chosen,
    sort_by-IsOrdered is_newer chosen,
    collected-drop n 0 scans dates h
        (omega (arith, length-map to_list_row sorted, length-sort_by is_newer chosen)),
  )
