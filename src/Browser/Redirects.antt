-- ===== src/Browser/Redirects.antt =====
-- `isAllowedRedirect` of pkg/auth/browser_handlers.go: which URIs a login may send the browser to.
use go_cloud_k8s_auth.Prelude.{
  Bytes, Bytes, Bool, true, false, not, ◌&&◌, none, List, [], ◌∷◌, ◌++◌, ◌≡◌, ◌≢◌, ◌⊎◌, ◌↔◌, inl,
  inr, refl, arith, Any, any, Bool-cases, Option-cases, if◌then◌else◌,
}
use go_cloud_k8s_auth.Prelude.Strings.{
  str, is_empty, has_prefix, strip_prefix, ends_with, strip_prefix-append, strip_prefix_sound,
}
use go_cloud_k8s_auth.Platform.{Platform}
use go_cloud_k8s_auth.Browser.{
  BrowserConfig, at_boundary, prefix_allows, is_web_url, is_allowed_redirect,
}

-- A path on the same origin: a slash that a second slash does not follow.
abbrev pub IsLocalPath : Bytes → Type 0
IsLocalPath [] = ⊥
IsLocalPath (c ∷ []) = c ≡ b'/'
IsLocalPath (c ∷ d ∷ s) = (c ≡ b'/') × (d ≢ b'/')

-- What follows a prefix begins a path segment, a query or a fragment, or is nothing.
abbrev pub BeginsSegment : Bytes → Type 0
BeginsSegment [] = Unit {0}
BeginsSegment (c ∷ s) = (c ≡ b'/') ⊎ (c ≡ b'?') ⊎ (c ≡ b'#')

-- A configured prefix covers a URI.
abbrev pub Covers : Bytes → Bytes → Type 0
Covers uri prefix =
    (prefix ≢ [])
    × ((rest : Bytes) × (uri ≡ prefix ++ rest)
        × ((ends_with prefix b'/' ≡ true) ⊎ BeginsSegment rest))

IsLocalPath-iff :
    (uri : Bytes)
    → (not (is_empty uri) && (has_prefix uri (str "/") && not (has_prefix uri (str "//"))) ≡ true)
      ↔ IsLocalPath uri
unfolding has_prefix
IsLocalPath-iff [] = ((λ h. cc), (λ h. absurd h))
IsLocalPath-iff (c ∷ []) = ground arith
IsLocalPath-iff (c ∷ d ∷ s) = ground arith

at_boundary_iff : (rest : Bytes) → (at_boundary rest ≡ true) ↔ BeginsSegment rest
at_boundary_iff [] = ((λ h. tt), (λ h. refl))
at_boundary_iff (c ∷ s) = ground arith

strip_prefix-none : (p s : Bytes) → strip_prefix p s ≡ none → (rest : Bytes) → s ≢ p ++ rest
strip_prefix-none p s h rest e = ground (arith, strip_prefix-append p rest)

prefix-Covers : (uri prefix : Bytes) → prefix_allows uri prefix ≡ true → Covers uri prefix
unfolding prefix_allows
prefix-Covers uri [] h = cc
prefix-Covers uri (c ∷ p) h = elim (Option-cases (strip_prefix (c ∷ p) uri)) [
  | inl e ↦ ground arith
  | inr (rest, e) ↦ (
    (λ n. cc),
    (rest, strip_prefix_sound (c ∷ p) uri rest e, ground (arith, at_boundary_iff rest)),
  )
]

Covers-allows : (uri prefix : Bytes) → Covers uri prefix → prefix_allows uri prefix ≡ true
unfolding prefix_allows
Covers-allows uri [] h = absurd (h.0 refl)
Covers-allows uri (c ∷ p) h =
    ground (arith, strip_prefix-append (c ∷ p) h.1.0, at_boundary_iff h.1.0)

any-Covers :
    (uri : Bytes) (ps : List Bytes) → any (prefix_allows uri) ps ≡ true → Any (Covers uri) ps
any-Covers uri [] h = cc
any-Covers uri (p ∷ ps) h = elim (Bool-cases (prefix_allows uri p)) [
  | inl e ↦ inl (prefix-Covers uri p e)
  | inr e ↦ inr (any-Covers uri ps (rw e at h))
]

Covers-any :
    (uri : Bytes) (ps : List Bytes) → Any (Covers uri) ps → any (prefix_allows uri) ps ≡ true
Covers-any uri [] h = absurd (h tt)
Covers-any uri (p ∷ ps) (inl c) = rw (Covers-allows uri p c)
Covers-any uri (p ∷ ps) (inr h) = ground (arith, Covers-any uri ps h)

no_prefix-Covers_empty : (ps : List Bytes) → ¬ Any (Covers []) ps
no_prefix-Covers_empty [] h = h tt
no_prefix-Covers_empty ([] ∷ ps) (inl c) = c.0 refl
no_prefix-Covers_empty ((x ∷ p) ∷ ps) (inl c) = cc (c.1.1)
no_prefix-Covers_empty (p ∷ ps) (inr h) = no_prefix-Covers_empty ps h

-- The early returns of `isAllowedRedirect` as a test of three conditions.
guards_true :
    (p w a : Bool)
    → (if p then true else if not w then false else a) ≡ true
    → (p ≡ true) ⊎ ((w ≡ true) × (a ≡ true))
guards_true p w a h = ground arith

guards_pass :
    (p w a : Bool) → w ≡ true → a ≡ true → (if p then true else if not w then false else a) ≡ true
guards_pass p w a hw ha = ground arith

-- A redirect is allowed exactly when the URI is a path that begins with one slash, or parses as
-- an http or https URL with a host and a configured prefix that is not empty covers it: the
-- prefix ends in a slash, or the URI goes on with `/`, `?` or `#` or ends.
pub is_allowed_redirect_iff :
    (pf : Platform) (cfg : BrowserConfig) (uri : Bytes)
    → (is_allowed_redirect pf cfg uri ≡ true) ↔ (
        IsLocalPath uri
        ⊎ ((is_web_url (pf.parse_url uri) ≡ true) × Any (Covers uri) cfg.allowed_redirect_uris))
unfolding is_allowed_redirect
is_allowed_redirect_iff pf cfg [] = (
  (λ h. cc),
  λ h. elim h [
    | inl l ↦ absurd l
    | inr (w, c) ↦ absurd (no_prefix-Covers_empty cfg.allowed_redirect_uris c)
  ],
)
is_allowed_redirect_iff pf cfg (c ∷ s) = (
  (λ h.
      elim (guards_true (has_prefix (c ∷ s) (str "/") && not (has_prefix (c ∷ s) (str "//")))
        (is_web_url (pf.parse_url (c ∷ s))) (any (prefix_allows (c ∷ s)) cfg.allowed_redirect_uris)
        h) [
          | inl l ↦ inl ((IsLocalPath-iff (c ∷ s)).0 l)
          | inr (w, a) ↦ inr (w, any-Covers (c ∷ s) cfg.allowed_redirect_uris a)
        ]),
  λ h. elim h [
    | inl l ↦ rw ((IsLocalPath-iff (c ∷ s)).1 l)
    | inr (w, k) ↦ guards_pass _ _ _ w (Covers-any (c ∷ s) cfg.allowed_redirect_uris k)
  ],
)
