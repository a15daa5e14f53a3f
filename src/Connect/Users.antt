-- ===== src/Connect/Users.antt =====
-- pkg/auth/user_connect_server.go: `UserConnectServer`. A request is the message that it carries;
-- the handlers take the caller from the context.
pub mod Access
pub mod Demotion
pub mod Keeps
use go_cloud_k8s_auth.Prelude.{
  ℕ, Bytes, ◌==◌, bytes_eq, Bool, true, false, not, ◌&&◌, ◌||◌, Option, none, some, List, [], ◌∷◌,
  if◌then◌else◌,
}
use go_cloud_k8s_auth.Prelude.Int.{ℤ, pos, int_eq, is_positive}
use go_cloud_k8s_auth.Prelude.Error.{
  Error, Result, ok, err, Action, Sentinel, sentinel, is, user_not_found, unauthorized,
  admin_required, invalid_input, lift,
}
use go_cloud_k8s_auth.Prelude.Error
use go_cloud_k8s_auth.Domain.{Roles, Uuid, User, UserList, admin_role}
use go_cloud_k8s_auth.Platform.{Platform}
use go_cloud_k8s_auth.Rbac.{has_role}
use go_cloud_k8s_auth.Storage.{UserStorage}
use go_cloud_k8s_auth.Mappers.{
  ProtoUser, ProtoUserList, domain_user_to_proto, proto_user_to_domain,
  domain_user_list_slice_to_proto,
}
use go_cloud_k8s_auth.UserService
use go_cloud_k8s_auth.Connect.{
  Code, invalid_argument, permission_denied, failed_precondition, internal, Reply, reply, fail,
  Handler, respond, refuse, serve, ◌>>=◌, ◌>>◌, Context, get_user_from_context,
}

-- `mapErrorToConnect`
unfoldable pub map_error_to_connect : Error → Code
map_error_to_connect e =
    if is e user_not_found
    then Code.not_found
    else if is e Sentinel.already_exists
    then Code.already_exists
    else if is e unauthorized
    then permission_denied
    else if is e admin_required
    then permission_denied
    else if is e invalid_input
    then invalid_argument
    else internal

pub data Response : Type 0 where
  users : List ProtoUserList → Response
  user : Option ProtoUser → Response
  counted : ℤ → Response
  deleted : Response

module _ {S : Type 0} (pf : Platform) (store : UserStorage S) (list_default_limit : ℤ)
    (ctx : Context) where
  unfoldable pub require_admin : Handler S (Unit {0})
  unfolding get_user_from_context map_error_to_connect
  require_admin =
      if not (get_user_from_context ctx).1
      then refuse (map_error_to_connect (sentinel admin_required))
      else respond tt

  unfoldable pub require_self_or_admin : ℤ → Handler S (Unit {0})
  unfolding get_user_from_context map_error_to_connect
  require_self_or_admin alternate_app_id =
      let (caller_id, is_admin) = get_user_from_context ctx in
      if is_admin || (is_positive caller_id && caller_id == alternate_app_id)
      then respond tt
      else refuse (map_error_to_connect (sentinel admin_required))

  -- `var disabledFilter *bool; if flag { disabledFilter = &flag }`
  abbrev filter_of : Bool → Option Bool
  filter_of flag = if flag then some flag else none

  unfoldable pub list : ℤ → ℤ → Bool → Handler S Response
  list msg_offset msg_limit msg_disabled = do
    require_admin
    let limit = if is_positive msg_limit then msg_limit else list_default_limit
    let offset = if is_positive msg_offset then msg_offset else pos 0
    rows ←
        serve map_error_to_connect (UserService.list pf store offset limit (filter_of msg_disabled))
    respond (users (domain_user_list_slice_to_proto pf rows))

  -- `ProtoUserToDomain` of a message that is there; its error is an invalid argument.
  to_domain : Option ProtoUser → Handler S User
  to_domain message s = elim message [
    | none ↦ (fail invalid_argument, s)
    | some p ↦ elim (proto_user_to_domain pf (some p)) [
      | err _ ↦ (fail invalid_argument, s)
      | ok none ↦ (fail invalid_argument, s)
      | ok (some u) ↦ (reply u, s)
    ]
  ]

  parse_id : Bytes → Handler S Uuid
  parse_id text s = elim (pf.parse_uuid text) [
    | none ↦ (fail invalid_argument, s)
    | some id ↦ (reply id, s)
  ]

  unfoldable pub create : Option ProtoUser → Handler S Response
  unfolding to_domain
  create message = do
    require_admin
    domain_user ← to_domain message
    created ← serve map_error_to_connect (UserService.create pf store domain_user)
    respond (user (domain_user_to_proto pf (some created)))

  unfoldable pub get : Bytes → Handler S Response
  unfolding parse_id
  get msg_id = do
    id ← parse_id msg_id
    found ← serve map_error_to_connect (UserService.get pf store id)
    require_self_or_admin found.alternate_app_id
    respond (user (domain_user_to_proto pf (some found)))

  unfoldable pub ensure_not_self_demotion : Uuid → Roles → Handler S (Unit {0})
  ensure_not_self_demotion id roles = if has_role roles admin_role then respond tt else do
    target ← serve map_error_to_connect (UserService.get pf store id)
    if target.alternate_app_id == (get_user_from_context ctx).0 && has_role target.roles admin_role
        then refuse failed_precondition
        else respond tt

  unfoldable pub update : Bytes → Option ProtoUser → Handler S Response
  unfolding parse_id to_domain
  update msg_id message = do
    require_admin
    id ← parse_id msg_id
    domain_user ← to_domain message
    ensure_not_self_demotion id domain_user.roles
    updated ← serve map_error_to_connect (UserService.update pf store id domain_user)
    respond (user (domain_user_to_proto pf (some updated)))

  unfoldable pub delete : Bytes → Handler S Response
  unfolding parse_id
  delete msg_id = do
    require_admin
    id ← parse_id msg_id
    serve map_error_to_connect (UserService.delete pf store id)
    respond deleted

  unfoldable pub count : Bool → Handler S Response
  count inactivated = do
    require_admin
    n ← serve map_error_to_connect (UserService.count pf store (filter_of inactivated))
    respond (counted n)

  unfoldable pub get_by_external_id : ℤ → Handler S Response
  get_by_external_id external_id = do
    require_self_or_admin external_id
    found ← serve map_error_to_connect (UserService.get_by_external_id pf store external_id)
    respond (user (domain_user_to_proto pf (some found)))
