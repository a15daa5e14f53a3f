-- ===== src/Mappers/RoundTrip.antt =====
-- pkg/auth/mappers.go: a user on the way to a proto message and back.
use go_cloud_k8s_auth.Prelude.{false, none, some, ◌≡◌, arith, []}
use go_cloud_k8s_auth.Prelude.Strings.{is_empty}
use go_cloud_k8s_auth.Prelude.Error.{ok}
use go_cloud_k8s_auth.Domain.{Uuid, User}
use go_cloud_k8s_auth.Platform.{Platform}
use go_cloud_k8s_auth.Mappers.{domain_user_to_proto, proto_user_to_domain}

module _ (pf : Platform) where
  -- The text of a UUID is not empty and parses to that UUID.
  abbrev pub RoundTrips : Uuid → Type 0
  RoundTrips id =
      (is_empty (pf.uuid_string id) ≡ false) × (pf.parse_uuid (pf.uuid_string id) ≡ some id)

  -- The message of a user whose UUID's text is not empty and parses back to that UUID comes back
  -- as that user, without the provider's id of the account and without the two times.
  pub to_domain-to_proto :
      (u : User)
      → RoundTrips u.id
      → proto_user_to_domain pf (domain_user_to_proto pf (some u))
        ≡ ok (some (record u { provider_id = []; created_at = none; last_login_at = none }))
  unfolding domain_user_to_proto proto_user_to_domain
  to_domain-to_proto u (e, p) = ground arith
