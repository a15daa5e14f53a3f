-- ===== src/Mappers/Tests.antt =====
-- A run of the mappers.
use go_cloud_k8s_auth.Prelude.{none, some, [], ◌≡◌, refl}
use go_cloud_k8s_auth.Prelude.Error.{ok}
use go_cloud_k8s_auth.Mappers.{domain_user_to_proto, proto_user_to_domain}
use go_cloud_k8s_auth.Fixtures.{alice, test_platform}

alice_message :
    proto_user_to_domain test_platform (domain_user_to_proto test_platform (some alice))
    ≡ ok (some (record alice { provider_id = []; created_at = none; last_login_at = none }))
unfolding domain_user_to_proto proto_user_to_domain
alice_message = refl
