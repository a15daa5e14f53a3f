-- ===== src/Client/Tests.antt =====
-- Runs and witnesses for the example client.
use go_cloud_k8s_auth.Prelude.{false, Bytes, bytes_beq, [], ◌≡◌, refl}
use go_cloud_k8s_auth.Prelude.Int.{pos, to_int32}
use go_cloud_k8s_auth.Prelude.Strings.{str}
use go_cloud_k8s_auth.Client.{
  list_users, Flags, run, authorization, unknown_command, token_required,
}
use go_cloud_k8s_auth.Client.Served.{IsServed, sent-IsServed}
use go_cloud_k8s_auth.Server.{user_service_list_procedure}
use go_cloud_k8s_auth.Fixtures.{
  test_wiring, test_network, moment_with, alice, alice_email, claims_of,
}

abbrev flags : Bytes → Bytes → Flags
flags cmd token = record {
  cmd = cmd;
  provider = str "github";
  token = token;
  limit = pos 10;
  offset = pos 0;
}

unknown : run (flags (str "delete") []) ≡ unknown_command
unfolding run bytes_beq
unknown = refl

no_token : run (flags (str "validate") []) ≡ token_required
unfolding run bytes_beq
no_token = refl

sent-IsServed_example :
    IsServed test_wiring test_network
      (moment_with [])
      (claims_of alice false)
      user_service_list_procedure
      (str "Bearer al@x.org")
unfolding run authorization bytes_beq to_int32
sent-IsServed_example =
    sent-IsServed test_wiring test_network (moment_with []) (claims_of alice false)
      (flags (str "list-users") alice_email) {msg = list_users (pos 10) (pos 0)} refl refl
