-- ===== src/PatService/Tests.antt =====
-- Runs and witnesses for the personal access tokens.
use go_cloud_k8s_auth.Prelude.{
  keep, ◌==◌, Bytes, bytes_beq, true, false, not, ◌||◌, take, bytes_eq, none, [], ◌∷◌, ◌++◌, ◌≡◌,
  ◌↔◌, refl, if◌then◌else◌,
}
use go_cloud_k8s_auth.Prelude.Int.{pos}
use go_cloud_k8s_auth.Prelude.Strings.{str, hex, strip_prefix, has_prefix}
use go_cloud_k8s_auth.Prelude.Error.{ok}
use go_cloud_k8s_auth.Domain.{PersonalAccessToken}
use go_cloud_k8s_auth.Storage.Db.{Db, query}
use go_cloud_k8s_auth.Storage.Users.{pgx_users, get_by_id}
use go_cloud_k8s_auth.Storage.Pats.{
  stored_end, pgx_pats, revoke, get_by_hash, touch_last_used, name_check,
}
use go_cloud_k8s_auth.Storage.Pats
use go_cloud_k8s_auth.PatService.{
  PatIntrospection, inactive, create, introspect, generate_pat_token, random_chars, index,
  hash_pat_token, validate_pat_scopes, default_pat_scopes, expiry, expired,
}
use go_cloud_k8s_auth.PatService.Scopes.{matches_scope, is_name, matches_scope_iff}
use go_cloud_k8s_auth.PatService.Introspection.{IsConfirmed, introspect-IsConfirmed}
use go_cloud_k8s_auth.PatService.RoundTrip.{created_introspected}
use mathlib.Core.List.{Perm}
use go_cloud_k8s_auth.Storage.Db.{sort_by}
use go_cloud_k8s_auth.Storage.Pats.{list_by_user}
use go_cloud_k8s_auth.Storage.Pats.Listing.{IsNewestFirst, listed-IsNewestFirst}
use go_cloud_k8s_auth.Fixtures.{alice, alice_email, uuid, test_platform, two_users}

scope_of_three_parts : matches_scope (str "notes:read:all") ≡ false
unfolding matches_scope
scope_of_three_parts = refl

matches_scope_iff_example : (matches_scope (str "notes:read") ≡ true) ↔ (
    (m : Bytes) × (a : Bytes) × (str "notes:read" ≡ m ++ b':' ∷ a)
    × (is_name m ≡ true)
    × (is_name a ≡ true))
matches_scope_iff_example = matches_scope_iff (str "notes:read")

abbrev token : Bytes
token = str "pat_AAAAAAAAAAAAAAAAAAAAAAAAAAAAAAAA"

abbrev a_pat : PersonalAccessToken
a_pat = record {
  id = uuid 3;
  user_id = uuid 1;
  token_hash = hash_pat_token test_platform token;
  prefix = take 12 token;
  name = str "ci";
  scopes = default_pat_scopes;
  created_at = 10;
  expires_at = none;
  last_used_at = none;
  revoked_at = none;
}

abbrev with_pat : Db
with_pat = record two_users { pats = a_pat ∷ []; seq = 4 }

created_introspected_example :
    (introspect test_platform
      (pgx_pats test_platform 30)
      (pgx_users test_platform 30)
      30
      token
      with_pat).0
    ≡ ok (
        if expired 30 a_pat || not alice.is_active then inactive else record {
          active = true;
          user_id = pos 1;
          email = alice_email;
          name = str "Alice";
          scopes = default_pat_scopes;
          expires_at = stored_end (expiry test_platform 10 (pos 0));
        })
unfolding create generate_pat_token random_chars index hash_pat_token validate_pat_scopes
    Pats.create query name_check bytes_beq hex
created_introspected_example =
    created_introspected test_platform 10 30 (λ _. ok 10) (uuid 1) (str "ci") [] (pos 0) token a_pat
      alice two_users with_pat refl refl refl refl

abbrev report : PatIntrospection
report = record {
  active = true;
  user_id = pos 1;
  email = alice_email;
  name = str "Alice";
  scopes = default_pat_scopes;
  expires_at = none;
}

abbrev after_use : Db
after_use = (touch_last_used test_platform 30 (uuid 3) with_pat).1

introspect-IsConfirmed_example :
    IsConfirmed test_platform
      (pgx_pats test_platform 30)
      (pgx_users test_platform 30)
      30
      token
      with_pat
      report
      after_use
unfolding introspect get_by_hash get_by_id touch_last_used hash_pat_token query bytes_beq hex
    has_prefix strip_prefix
introspect-IsConfirmed_example =
    introspect-IsConfirmed test_platform (pgx_pats test_platform 30) (pgx_users test_platform 30) 30
      token with_pat after_use report refl refl

abbrev after_revoke : Db
after_revoke = (revoke test_platform 30 (uuid 3) (uuid 1) with_pat).1

listed-IsNewestFirst_example :
    Perm with_pat.pats (keep (λ p. p.user_id == uuid 1) with_pat.pats) × IsNewestFirst with_pat.pats
unfolding list_by_user query sort_by bytes_beq
listed-IsNewestFirst_example =
    listed-IsNewestFirst test_platform 30 (uuid 1) with_pat with_pat with_pat.pats refl
