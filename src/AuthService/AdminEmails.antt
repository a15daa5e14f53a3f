-- ===== src/AuthService/AdminEmails.antt =====
-- pkg/auth/auth_service.go: the set that `ParseAdminEmails` reads from the environment variable.
use go_cloud_k8s_auth.Prelude.{
  Bytes, bytes_beq_iff, ◌==◌, bytes_eq, Bool, true, false, ◌||◌, List, [], ◌∷◌, ◌≡◌, refl, arith,
  any,
}
use go_cloud_k8s_auth.Prelude.Strings.{is_empty, split}
use go_cloud_k8s_auth.Platform.{Platform}
use go_cloud_k8s_auth.AuthService.{member, add_email, parse_parts, parse_admin_emails}

module _ (pf : Platform) (email : Bytes) where
  -- The entry of the list between two commas stands for this e-mail.
  abbrev pub names : Bytes → Bool
  names part = pf.to_lower (pf.trim_space part) == email

  member-equal :
      (part : Bytes) (emails : List Bytes)
      → names part ≡ true
      → member (pf.to_lower (pf.trim_space part)) emails ≡ member email emails
  member-equal part emails h = rw ((bytes_beq_iff (pf.to_lower (pf.trim_space part)) email).0 h)

  empty-equal :
      (part : Bytes)
      → is_empty email ≡ false
      → names part ≡ true
      → is_empty (pf.to_lower (pf.trim_space part)) ≡ false
  empty-equal part e h = rw ((bytes_beq_iff (pf.to_lower (pf.trim_space part)) email).0 h) e

  member-add_email :
      (part : Bytes) (emails : List Bytes)
      → is_empty email ≡ false
      → member email (add_email pf part emails) ≡ (names part || member email emails)
  unfolding add_email
  member-add_email part emails h = ground (arith, member-equal part emails, empty-equal part h)

  member-parse_parts :
      (parts : List Bytes) (emails : List Bytes)
      → is_empty email ≡ false
      → member email (parse_parts pf parts emails) ≡ (any names parts || member email emails)
  unfolding parse_parts
  member-parse_parts [] emails h = refl
  member-parse_parts (part ∷ parts) emails h =
      ground (
        arith,
        member-parse_parts parts (add_email pf part emails) h,
        member-add_email part emails h,
      )

  -- A non-empty e-mail is in the set exactly if, lower-cased and without the spaces around it, some
  -- entry of the comma-separated list is that e-mail.
  pub member-parse_admin_emails :
      (raw : Bytes)
      → is_empty email ≡ false
      → member email (parse_admin_emails pf raw) ≡ any names (split b',' raw)
  unfolding parse_admin_emails
  member-parse_admin_emails raw h = ground (arith, member-parse_parts (split b',' raw) [] h)
