-- ===== src/Rbac/Tests.antt =====
-- Runs and witnesses for the role checks.
use go_cloud_k8s_auth.Domain.{Roles}
use go_cloud_k8s_auth.Prelude.{some, bytes_beq, [], ◌∷◌, ◌≡◌, refl, true, false}
use go_cloud_k8s_auth.Prelude.Strings.{str}
use go_cloud_k8s_auth.Rbac.{is_allowed, has_role}

abbrev editor_roles : Roles
editor_roles = some (str "editor" ∷ str "user" ∷ [])

user_reads : is_allowed editor_roles (str "read") (str "users") ≡ true
unfolding is_allowed has_role bytes_beq
user_reads = refl

user_writes : is_allowed editor_roles (str "write") (str "users") ≡ false
unfolding is_allowed has_role bytes_beq
user_writes = refl
