-- ===== src/Connect/Tests.antt =====
-- Runs and witnesses for the Connect servers.
use go_cloud_k8s_auth.Prelude.{
  ◌+◌, Bytes, bytes_beq, true, false, bytes_eq, none, some, [], ◌∷◌, ◌≡◌, ◌⊎◌, refl,
}
use go_cloud_k8s_auth.Prelude.Int.{pos, int_beq, to_int32, int32_mod}
use go_cloud_k8s_auth.Prelude.Strings.{str, contains_byte}
use go_cloud_k8s_auth.Prelude.Error.{ok}
use go_cloud_k8s_auth.Domain.{User, Uuid, PersonalAccessToken}
use go_cloud_k8s_auth.Platform.{UserInfo}
use go_cloud_k8s_auth.Rbac.{has_role}
use go_cloud_k8s_auth.Storage.Db.{Db, query, violation}
use go_cloud_k8s_auth.Storage.Users.{pgx_users, get_by_id}
use go_cloud_k8s_auth.Storage.Users
use go_cloud_k8s_auth.Storage.Pats.Revocation.{OnlyOwn}
use go_cloud_k8s_auth.Mappers.{ProtoUser, domain_user_to_proto, proto_user_to_domain}
use go_cloud_k8s_auth.UserService
use go_cloud_k8s_auth.Connect.{
  permission_denied, unauthenticated, reply, fail, Context, background, is_public, with_claims,
  intercept, get_user_from_context,
}
use go_cloud_k8s_auth.Connect.Interceptor.{Authenticated, intercept_private, callers_conflated}
use go_cloud_k8s_auth.Connect.Users.{user, update, require_admin, ensure_not_self_demotion}
use go_cloud_k8s_auth.Connect.Users.Access.{handle, deletes, handle_denied}
use go_cloud_k8s_auth.Connect.Users.Demotion.{IsChecked, update-IsHarmless}
use go_cloud_k8s_auth.Connect.Pats.Ownership.{IsCaller, after, revocation_own}
use go_cloud_k8s_auth.Fixtures.{alice, alice_email, bob, uuid, test_platform, two_users, claims_of}

abbrev list_users : Bytes
list_users = str "/auth.v1.UserService/List"

intercept_private_example :
    ((claims : UserInfo) × Authenticated test_platform list_users background
        (str "Bearer al@x.org")
        claims
      × (intercept test_platform list_users (str "Bearer al@x.org") background
          ≡ reply (with_claims claims background)))
    ⊎ (((claims : UserInfo)
          → Authenticated test_platform list_users background (str "Bearer al@x.org") claims
          → ⊥)
        × (intercept test_platform list_users (str "Bearer al@x.org") background
            ≡ fail unauthenticated))
unfolding is_public bytes_beq
intercept_private_example =
    intercept_private test_platform list_users background (str "Bearer al@x.org") refl

abbrev far_claims : UserInfo
far_claims = record (claims_of alice false) { user_id = pos (1 + int32_mod) }

callers_conflated_example :
    (get_user_from_context (with_claims far_claims background)).0
    ≡ (get_user_from_context (with_claims (claims_of alice false) background)).0
callers_conflated_example =
    callers_conflated test_platform list_users background (claims_of alice false) far_claims 1 refl
      refl

abbrev as_alice : Context
as_alice = with_claims (claims_of alice false) background

abbrev as_bob : Context
as_bob = with_claims (claims_of bob true) background

handle_denied_example :
    handle test_platform (pgx_users test_platform 9) (pos 50) as_alice (deletes (uuid 2)) two_users
    ≡ (fail permission_denied, two_users)
unfolding get_user_from_context
handle_denied_example =
    handle_denied test_platform (pgx_users test_platform 9) (pos 50) as_alice (deletes (uuid 2))
      two_users tt refl

-- Alice's row with another name, as a message.
abbrev renamed : ProtoUser
renamed = record {
  id = uuid 1;
  external_id = pos 1;
  email = alice_email;
  name = str "Alicia";
  avatar_url = [];
  provider = str "github";
  disabled = false;
  roles = some (str "user" ∷ []);
  created_at = none;
  last_login_at = none;
}

abbrev after_update : Db
after_update =
    (update test_platform (pgx_users test_platform 9) (pos 50) as_bob (uuid 1) (some renamed)
      two_users).1

update-IsHarmless_example :
    (id : Uuid) × (d : User) × (t : Db) × (test_platform.parse_uuid (uuid 1) ≡ some id)
    × (proto_user_to_domain test_platform (some renamed) ≡ ok (some d))
    × ((get_user_from_context as_bob).1 ≡ true)
    × IsChecked test_platform (pgx_users test_platform 9) (pos 50) as_bob id d.roles two_users t
unfolding update require_admin ensure_not_self_demotion get_user_from_context UserService.get
    UserService.update UserService.validate_user_input proto_user_to_domain get_by_id Users.update
    Users.exist query violation has_role bytes_beq int_beq to_int32 domain_user_to_proto
    contains_byte
update-IsHarmless_example =
    update-IsHarmless test_platform (pgx_users test_platform 9) (pos 50) as_bob (uuid 1)
      (some renamed)
      (user (domain_user_to_proto test_platform (some (record alice { name = str "Alicia" }))))
      two_users after_update refl

abbrev bobs_token : PersonalAccessToken
bobs_token = record {
  id = uuid 3;
  user_id = uuid 2;
  token_hash = str "h";
  prefix = str "pat_";
  name = str "ci";
  scopes = [];
  created_at = 1;
  expires_at = none;
  last_used_at = none;
  revoked_at = none;
}

abbrev with_token : Db
with_token = record two_users { pats = bobs_token ∷ [] }

revocation_own_example :
    ((after test_platform 9 as_alice (uuid 3) with_token).pats ≡ with_token.pats)
    ⊎ ((u : User) × IsCaller test_platform 9 as_alice (uuid 3) with_token u
        × OnlyOwn u.id with_token.pats (after test_platform 9 as_alice (uuid 3) with_token).pats)
revocation_own_example = revocation_own test_platform 9 as_alice (uuid 3) with_token
