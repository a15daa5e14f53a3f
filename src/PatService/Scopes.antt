-- ===== src/PatService/Scopes.antt =====
-- The regular expression `patScopePattern` of pkg/auth/pat_service.go,
-- `^[a-z][a-z0-9-]*:[a-z][a-z0-9-]*$`, as the scan that it stands for.
use go_cloud_k8s_auth.Prelude.{
  ℕ, Bytes, Bool, true, false, ◌&&◌, ◌||◌, [], ◌∷◌, ◌++◌, if◌then◌else◌, leb, eqb, ◌≡◌, refl, ◌↔◌,
  arith, all, Bool-cases, inl, inr, ap,
}

-- `[a-z]` and `[a-z0-9-]`
abbrev pub is_letter : ℕ → Bool
is_letter c = leb b'a' c && leb c b'z'

abbrev pub is_word : ℕ → Bool
is_word c = is_letter c || (leb b'0' c && leb c b'9') || eqb c b'-'

-- `[a-z0-9-]*$`
unfoldable pub scan_word : Bytes → Bool
scan_word [] = true
scan_word (c ∷ s) = is_word c && scan_word s

-- `[a-z][a-z0-9-]*$`
unfoldable pub scan_action : Bytes → Bool
unfolding scan_word
scan_action [] = false
scan_action (c ∷ s) = is_letter c && scan_word s

-- `[a-z0-9-]*:[a-z][a-z0-9-]*$`; the colon is in no class, so the star has one way to stop.
unfoldable pub scan_module : Bytes → Bool
unfolding scan_action
scan_module [] = false
scan_module (c ∷ s) = if eqb c b':' then scan_action s else is_word c && scan_module s

unfoldable pub matches_scope : Bytes → Bool
unfolding scan_module
matches_scope [] = false
matches_scope (c ∷ s) = is_letter c && scan_module s

scan_word-all : (s : Bytes) → scan_word s ≡ all is_word s
unfolding scan_word
scan_word-all [] = refl
scan_word-all (c ∷ s) = ground (arith, scan_word-all s)

-- `[a-z][a-z0-9-]*`
abbrev pub is_name : Bytes → Bool
is_name [] = false
is_name (c ∷ s) = is_letter c && all is_word s

scan_action-is_name : (s : Bytes) → scan_action s ≡ is_name s
unfolding scan_action
scan_action-is_name [] = refl
scan_action-is_name (c ∷ s) = ground (arith, scan_word-all s)

scan_module_sound :
    (s : Bytes)
    → scan_module s ≡ true
    → (m : Bytes) × (a : Bytes) × (s ≡ m ++ b':' ∷ a) × (all is_word m ≡ true) × (is_name a ≡ true)
unfolding scan_module
scan_module_sound [] h = ground arith
scan_module_sound (c ∷ s) h = elim (Bool-cases (eqb c b':')) [
  | inl colon ↦ ([], s, ground arith, refl, ground (arith, scan_action-is_name s))
  | inr other ↦
      let (m, a, e, w, n) = scan_module_sound s (ground arith) in
      let word : is_word c ≡ true = ground arith in (c ∷ m, a, ap (λ r. c ∷ r) e, rw word w, n)
]

scan_module_complete :
    (m a : Bytes) → all is_word m ≡ true → is_name a ≡ true → scan_module (m ++ b':' ∷ a) ≡ true
unfolding scan_module
scan_module_complete [] a w n = ground (arith, scan_action-is_name a)
scan_module_complete (c ∷ m) a w n = ground (arith, scan_module_complete m a)

-- The scopes that pass are those of the form module:action, where each part is a lower-case letter
-- and then lower-case letters, digits and dashes.
pub matches_scope_iff :
    (s : Bytes)
    → (matches_scope s ≡ true)
      ↔ ((m : Bytes) × (a : Bytes) × (s ≡ m ++ b':' ∷ a) × (is_name m ≡ true) × (is_name a ≡ true))
unfolding matches_scope
matches_scope_iff s = (sound s, complete)
  where
    sound :
        (s : Bytes)
        → matches_scope s ≡ true
        → (m : Bytes) × (a : Bytes) × (s ≡ m ++ b':' ∷ a) × (is_name m ≡ true) × (is_name a ≡ true)
    sound [] h = ground arith
    sound (c ∷ s) h =
        let (m, a, e, w, n) = scan_module_sound s (ground arith) in
        let letter : is_letter c ≡ true = ground arith in
        (c ∷ m, a, ap (λ r. c ∷ r) e, rw letter w, n)

    complete :
        (m : Bytes) × (a : Bytes) × (s ≡ m ++ b':' ∷ a) × (is_name m ≡ true) × (is_name a ≡ true)
        → matches_scope s ≡ true
    complete ([], a, e, w, n) = ground arith
    complete (c ∷ m, a, e, w, n) =
        let passes : matches_scope (c ∷ m ++ b':' ∷ a) ≡ true =
          ground (arith, scan_module_complete m a) in
        rw e passes
