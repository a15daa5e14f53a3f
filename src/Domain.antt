-- ===== src/Domain.antt =====
-- pkg/auth/domain.go, the row types of pkg/auth/session_store.go and pkg/auth/pat_store.go, and
-- pkg/auth/rules.go. A time is a number of nanoseconds, a `*time.Time` an `Option`; a UUID is the
-- list of its sixteen bytes.
use go_cloud_k8s_auth.Prelude.{ℕ, Bool, Bytes, Option, List}
use go_cloud_k8s_auth.Prelude.Int.{ℤ}
use go_cloud_k8s_auth.Prelude.Strings.{str}

abbrev pub Uuid : Type 0
Uuid = Bytes

abbrev pub Time : Type 0
Time = ℕ

-- A `[]string` of roles: nil, which the column `roles` keeps as NULL, or a list.
abbrev pub Roles : Type 0
Roles = Option (List Bytes)

pub record User : Type 0 where
  pub id : Uuid
  pub alternate_app_id : ℤ
  pub email : Bytes
  pub name : Bytes
  pub avatar_url : Bytes
  pub provider : Bytes
  pub provider_id : Bytes
  pub roles : Roles
  pub is_active : Bool
  pub created_at : Option Time
  pub last_login_at : Option Time

pub record UserList : Type 0 where
  pub id : Uuid
  pub alternate_app_id : ℤ
  pub email : Bytes
  pub name : Bytes
  pub roles : Roles
  pub is_active : Bool
  pub created_at : Option Time
  pub last_login_at : Option Time

pub record Group : Type 0 where
  pub id : Uuid
  pub name : Bytes
  pub owner_id : Uuid
  pub is_personal : Bool
  pub created_at : Option Time

pub record UserGroup : Type 0 where
  pub user_id : Uuid
  pub group_id : Uuid
  pub role : Bytes

pub record OAuthUserInfo : Type 0 where
  pub provider : Bytes
  pub provider_id : Bytes
  pub email : Bytes
  pub name : Bytes
  pub avatar_url : Bytes
  pub email_verified : Bool

pub record Session : Type 0 where
  pub id : Uuid
  pub token_hash : Bytes
  pub user_id : Uuid
  pub created_at : Time
  pub expires_at : Time
  pub last_seen_at : Option Time
  pub user_agent : Bytes
  pub ip : Bytes
  pub revoked_at : Option Time

pub record PersonalAccessToken : Type 0 where
  pub id : Uuid
  pub user_id : Uuid
  pub token_hash : Bytes
  pub prefix : Bytes
  pub name : Bytes
  pub scopes : List Bytes
  pub created_at : Time
  pub expires_at : Option Time
  pub last_used_at : Option Time
  pub revoked_at : Option Time

-- `AdminRole`
abbrev pub admin_role : Bytes
admin_role = str "admin"

abbrev pub min_name_length : ℕ
min_name_length = 2

abbrev pub min_email_length : ℕ
min_email_length = 5
