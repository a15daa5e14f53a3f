-- ===== src/UserService/Tests.antt =====
-- Runs and witnesses for the user service, over PostgreSQL.
use go_cloud_k8s_auth.Prelude.{bytes_beq, none, some, [], ◌∷◌, ◌≡◌, refl}
use go_cloud_k8s_auth.Prelude.Int.{int_beq, pos}
use go_cloud_k8s_auth.Prelude.Strings.{str, contains_byte}
use go_cloud_k8s_auth.Prelude.Error.{err, wrap, pg_unique, unique_provider, sentinel, invalid_input}
use go_cloud_k8s_auth.Domain.{User}
use go_cloud_k8s_auth.Storage.Db.{Db}
use go_cloud_k8s_auth.Storage.Users.{pgx_users}
use go_cloud_k8s_auth.UserService.{validate_user_input, create}
use go_cloud_k8s_auth.UserService.Accounts.{one_local_account}
use go_cloud_k8s_auth.Fixtures.{alice, uuid, test_platform, two_users}

-- A request for a new local account, as an administrator sends it.
abbrev carol : User
carol = record alice {
  id = [];
  email = str "ca@x.org";
  name = str "Carol";
  provider = [];
  provider_id = [];
  roles = none;
}

abbrev only_alice : Db
only_alice = record two_users { users = alice ∷ [] }

abbrev created : User
created = record carol {
  id = uuid 3;
  alternate_app_id = pos 3;
  provider = str "local";
  roles = some (str "user" ∷ []);
  created_at = some 9;
  last_login_at = none;
}

abbrev after_creation : Db
after_creation = (create test_platform (pgx_users test_platform 9) carol only_alice).1

no_at_sign :
    validate_user_input test_platform (str "Carol") (str "ca.x.org")
    ≡ err (wrap (sentinel invalid_input))
unfolding validate_user_input contains_byte
no_at_sign = refl

one_local_account_example :
    (create test_platform (pgx_users test_platform 9) carol two_users).0
    ≡ err (wrap (pg_unique unique_provider))
unfolding validate_user_input contains_byte bytes_beq int_beq
one_local_account_example =
    one_local_account test_platform 9 carol two_users refl refl refl refl refl refl refl refl
