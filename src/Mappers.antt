-- ===== src/Mappers.antt =====
-- pkg/auth/mappers.go: conversions between domain records, proto messages and JWT claims. A nil
-- pointer is `none`.
pub mod RoundTrip
mod Tests
use go_cloud_k8s_auth.Prelude.{
  ℕ, Bytes, Bool, not, Option, none, some, List, [], ◌∷◌, map, if◌then◌else◌,
}
use go_cloud_k8s_auth.Prelude.Int.{ℤ}
use go_cloud_k8s_auth.Prelude.Strings.{is_empty}
use go_cloud_k8s_auth.Prelude.Error.{Result, ok, err, other}
use go_cloud_k8s_auth.Domain.{Roles, Uuid, Time, User, UserList, admin_role}
use go_cloud_k8s_auth.Platform.{Platform, UserInfo}
use go_cloud_k8s_auth.Rbac.{has_role}

-- `authv1.User`, from the generated code, field by field as the mappers fill it.
pub record ProtoUser : Type 0 where
  pub id : Bytes
  pub external_id : ℤ
  pub email : Bytes
  pub name : Bytes
  pub avatar_url : Bytes
  pub provider : Bytes
  pub disabled : Bool
  pub roles : Roles
  pub created_at : Option Time
  pub last_login_at : Option Time

-- `authv1.UserList`
pub record ProtoUserList : Type 0 where
  pub id : Bytes
  pub external_id : ℤ
  pub email : Bytes
  pub name : Bytes
  pub disabled : Bool
  pub roles : Roles
  pub created_at : Option Time
  pub last_login_at : Option Time

-- `uuid.UUID{}`
abbrev pub nil_uuid : Uuid
nil_uuid = 0 ∷ 0 ∷ 0 ∷ 0 ∷ 0 ∷ 0 ∷ 0 ∷ 0 ∷ 0 ∷ 0 ∷ 0 ∷ 0 ∷ 0 ∷ 0 ∷ 0 ∷ 0 ∷ []

module _ (pf : Platform) where
  unfoldable pub domain_user_to_proto : Option User → Option ProtoUser
  domain_user_to_proto none = none
  domain_user_to_proto (some u) = some (record {
    id = pf.uuid_string u.id;
    external_id = u.alternate_app_id;
    email = u.email;
    name = u.name;
    avatar_url = u.avatar_url;
    provider = u.provider;
    disabled = not u.is_active;
    roles = u.roles;
    created_at = u.created_at;
    last_login_at = u.last_login_at;
  })

  parse_id : Bytes → Result Uuid
  parse_id s =
      if is_empty s
      then ok nil_uuid
      else elim (pf.parse_uuid s) [ none ↦ err (other 6) | some id ↦ ok id ]

  abbrev from_proto : ProtoUser → Uuid → User
  from_proto p id = record {
    id = id;
    alternate_app_id = p.external_id;
    email = p.email;
    name = p.name;
    avatar_url = p.avatar_url;
    provider = p.provider;
    provider_id = [];
    roles = p.roles;
    is_active = not p.disabled;
    created_at = none;
    last_login_at = none;
  }

  unfoldable pub proto_user_to_domain : Option ProtoUser → Result (Option User)
  unfolding parse_id
  proto_user_to_domain none = ok none
  proto_user_to_domain (some p) = elim (parse_id p.id) [
    | err e ↦ err e
    | ok id ↦ ok (some (from_proto p id))
  ]

  unfoldable pub domain_user_list_to_proto : UserList → ProtoUserList
  domain_user_list_to_proto u = record {
    id = pf.uuid_string u.id;
    external_id = u.alternate_app_id;
    email = u.email;
    name = u.name;
    disabled = not u.is_active;
    roles = u.roles;
    created_at = u.created_at;
    last_login_at = u.last_login_at;
  }

  -- The loop of `DomainUserListSliceToProto`.
  unfoldable pub domain_user_list_slice_to_proto : List UserList → List ProtoUserList
  domain_user_list_slice_to_proto items = map domain_user_list_to_proto items

-- `DomainUserToJwtUserInfo`, of a user that is there.
unfoldable pub domain_user_to_jwt_user_info : User → List ℕ → UserInfo
domain_user_to_jwt_user_info u group_ids = record {
  user_id = u.alternate_app_id;
  external_id = u.alternate_app_id;
  name = u.name;
  email = u.email;
  login = u.email;
  is_admin = has_role u.roles admin_role;
  groups = group_ids;
}
