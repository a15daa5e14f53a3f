-- ===== src/Rbac.antt =====
-- pkg/rbac: the role checks of `SimpleEnforcer`, and `slices.Contains` on roles as pkg/auth uses it.
pub mod Rules
mod Tests
use go_cloud_k8s_auth.Prelude.{
  Bytes, ◌==◌, bytes_eq, Bool, true, false, ◌&&◌, none, some, [], ◌∷◌, if◌then◌else◌,
}
use go_cloud_k8s_auth.Prelude.Strings.{str}
use go_cloud_k8s_auth.Domain.{Roles}

-- `HasRole`, the loop over the roles.
unfoldable pub has_role : Roles → Bytes → Bool
has_role none role = false
has_role (some []) role = false
has_role (some (r ∷ roles)) role = if r == role then true else has_role (some roles) role

unfoldable pub is_admin : Roles → Bool
is_admin roles = has_role roles (str "admin")

unfoldable pub is_allowed : Roles → Bytes → Bytes → Bool
unfolding is_admin
is_allowed roles action resource =
    if is_admin roles
    then true
    else if has_role roles (str "user") && action == str "read"
    then true
    else false
