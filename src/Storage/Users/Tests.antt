-- ===== src/Storage/Users/Tests.antt =====
-- Runs and witnesses for the users of the PostgreSQL storage.
use go_cloud_k8s_auth.Prelude.Int.{int_beq}
use go_cloud_k8s_auth.Prelude.{
  arith, none, keep, map, Bytes, bytes_beq, Bool, true, false, ◌==◌, any, ◌&&◌, ◌⊎◌, bytes_eq, List,
  [], ◌∷◌, ◌≡◌, refl,
}
use go_cloud_k8s_auth.Prelude.Strings.{str}
use go_cloud_k8s_auth.Prelude.Error.{ok, err, sentinel, email_in_use}
use go_cloud_k8s_auth.Domain.{User, OAuthUserInfo}
use go_cloud_k8s_auth.Storage.{UserStorageLaws}
use go_cloud_k8s_auth.Storage.Db.{violation, query, sort_by}
use go_cloud_k8s_auth.Storage.UserRows.{passes, inverted, to_list_row, target, relinked}
use go_cloud_k8s_auth.Storage.Users.{list, pgx_users, upsert_by_provider}
use go_cloud_k8s_auth.Storage.Users.Identity.{
  may_reach, reached_account, unverified_newcomer, known_identity,
}
use mathlib.Core.List.{Perm}
use mathlib.Core.List.Permᴰ
use go_cloud_k8s_auth.Storage.Db.Order.{IsOrdered}
use go_cloud_k8s_auth.Storage.Users.Pages.{collected, collected_all}
use go_cloud_k8s_auth.Storage.Users.Scans.{is_newer, HasDates}
use go_cloud_k8s_auth.Storage.Users.Roles.{pgx_users-UserStorageLaws}
use go_cloud_k8s_auth.Fixtures.{alice, bob, alice_email, test_platform, two_users, newcomer_info}

-- An unverified e-mail that is Alice's, from an identity that is not hers.
unverified_newcomer_example :
    upsert_by_provider test_platform 9 (newcomer_info false alice_email) two_users
    ≡ (err (sentinel email_in_use), record two_users { seq = 4; user_seq = 4 })
unfolding bytes_beq int_beq
unverified_newcomer_example =
    unverified_newcomer test_platform 9 (newcomer_info false alice_email) two_users refl refl refl
      refl refl

-- A verified one reaches her account.
verified_newcomer :
    (upsert_by_provider test_platform 9 (newcomer_info true alice_email) two_users).0
    ≡ ok (relinked 9 (newcomer_info true alice_email) alice)
unfolding upsert_by_provider target violation query bytes_beq int_beq
verified_newcomer = refl

abbrev alice_again : Bytes → Bool → OAuthUserInfo
alice_again email verified = record (newcomer_info verified email) {
  provider = str "github";
  provider_id = str "7";
}

known_identity_example :
    let u = relinked 9 (alice_again (str "new@x.org") false) alice in
    (u.id ≡ alice.id)
    × (u.alternate_app_id ≡ alice.alternate_app_id)
    × (u.roles ≡ alice.roles)
    × (u.is_active ≡ alice.is_active)
unfolding upsert_by_provider target violation query bytes_beq int_beq
known_identity_example =
    known_identity test_platform 9 (alice_again (str "new@x.org") false) two_users alice
      (relinked 9 (alice_again (str "new@x.org") false) alice)
      (upsert_by_provider test_platform 9 (alice_again (str "new@x.org") false) two_users).1 refl
      refl

pgx_users-UserStorageLaws_example : UserStorageLaws (pgx_users test_platform 9)
pgx_users-UserStorageLaws_example = pgx_users-UserStorageLaws test_platform 9

-- A login of Alice's identity with a new e-mail.
reached_account_example :
    let u = relinked 9 (alice_again (str "new@x.org") false) alice in
    (any (λ w. w.id == u.id) two_users.users ≡ false)
    ⊎ (any (λ w. w.id == u.id && may_reach (alice_again (str "new@x.org") false) w) two_users.users
        ≡ true)
unfolding upsert_by_provider target violation query bytes_beq int_beq
reached_account_example =
    reached_account test_platform 9 (alice_again (str "new@x.org") false) two_users
      (relinked 9 (alice_again (str "new@x.org") false) alice)
      (upsert_by_provider test_platform 9 (alice_again (str "new@x.org") false) two_users).1 refl

two_dates : HasDates two_users.users
two_dates = (((λ e. ground arith), tt), (tt, tt))

-- Pages of one row each, one more than needed.
collected_all_example :
    (us : List User) × Perm us (keep (passes (inverted none)) two_users.users)
    × IsOrdered is_newer us
    × (collected test_platform 9 none 1 two_users 3 0 ≡ map to_list_row us)
collected_all_example =
    collected_all test_platform 9 none 1 two_users 3 (λ at limit offset us. Permᴰ.refl us) two_dates
      refl (omega arith)

-- Bob, who was created later, comes first.
newest_first :
    collected test_platform 9 none 1 two_users 3 0 ≡ to_list_row bob ∷ to_list_row alice ∷ []
unfolding list query sort_by
newest_first = refl
