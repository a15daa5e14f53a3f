-- ===== src/PatService/Tokens.antt =====
-- pkg/auth/pat_service.go: the tokens of `generatePatToken`.
use go_cloud_k8s_auth.Prelude.{
  ℕ, zero, suc, Bytes, bytes_eq, Bool, true, ◌&&◌, ◌||◌, [], ◌∷◌, ◌++◌, all, length, leb, ◌≡◌, refl,
  arith, inl, inr, ap,
}
use go_cloud_k8s_auth.Prelude.Strings.{str}
use go_cloud_k8s_auth.Prelude.Error.{Result, ok, Result-cases}
use go_cloud_k8s_auth.PatService.{pat_base62, index, random_chars, generate_pat_token}

-- `[0-9A-Za-z]`
abbrev pub is_base62 : ℕ → Bool
is_base62 c = (leb b'0' c && leb c b'9') || (leb b'A' c && leb c b'Z') || (leb b'a' c && leb c b'z')

index-all : (s : Bytes) (n c : ℕ) → all is_base62 s ≡ true → index s n ≡ ok c → is_base62 c ≡ true
unfolding index
index-all [] n c a h = ground arith
index-all (d ∷ s) zero c a h = ground arith
index-all (d ∷ s) (suc n) c a h = index-all s n c (ground arith) h

random_chars-shape :
    (draw : ℕ → Result ℕ) (n : ℕ) (s : Bytes)
    → random_chars draw n ≡ ok s
    → (length s ≡ n) × (all is_base62 s ≡ true)
unfolding random_chars
random_chars-shape draw zero s h = ground arith
random_chars-shape draw (suc n) s h = elim (Result-cases (draw n)) [
  | inr (x, e) ↦ ground arith
  | inl (i, e) ↦ elim (Result-cases (index pat_base62 i)) [
    | inr (x, f) ↦ ground arith
    | inl (c, f) ↦ elim (Result-cases (random_chars draw n)) [
      | inr (x, g) ↦ ground arith
      | inl (r, g) ↦
          let (l, a) = random_chars-shape draw n r g in
          let d : is_base62 c ≡ true = index-all pat_base62 i c refl f in
          let same : s ≡ c ∷ r = ground arith in (rw same (ap suc l), rw same (ground arith))
    ]
  ]
]

-- A generated token is "pat_" and 32 characters, each a digit or an ASCII letter.
pub generate_pat_token-shape :
    (draw : ℕ → Result ℕ) (token : Bytes)
    → generate_pat_token draw ≡ ok token
    → (s : Bytes) × (token ≡ str "pat_" ++ s) × (length s ≡ 32) × (all is_base62 s ≡ true)
unfolding generate_pat_token
generate_pat_token-shape draw token h = elim (Result-cases (random_chars draw 32)) [
  | inl (s, e) ↦ let (l, a) = random_chars-shape draw 32 s e in (s, ground arith, l, a)
  | inr (x, e) ↦ ground arith
]
