-- ===== src/Storage/Keeps.antt =====
-- The operations of the storages of pkg/auth/storage.go, pkg/auth/session_store.go and
-- pkg/auth/pat_store.go that keep a predicate on the state.
use go_cloud_k8s_auth.Prelude.{ℕ, Bool, Bytes, Option, List}
use go_cloud_k8s_auth.Prelude.Int.{ℤ}
use go_cloud_k8s_auth.Prelude.Error.{Result}
use go_cloud_k8s_auth.Prelude.Keeps.{Keeps}
use go_cloud_k8s_auth.Domain.{Uuid, Time, User, OAuthUserInfo}
use go_cloud_k8s_auth.Storage.{UserStorage, SessionStorage, PatStorage}

module _ {S : Type 0} (P : S → Type 0) where
  -- The operations of a login and the ones that read.
  pub record UsersKeep (store : UserStorage S) : Type 0 where
    pub upsert_by_provider : (info : OAuthUserInfo) → Keeps P (store.upsert_by_provider info)
    pub get_by_id : (id : Uuid) → Keeps P (store.get_by_id id)
    pub get_by_alternate_app_id : (id : ℤ) → Keeps P (store.get_by_alternate_app_id id)
    pub list : (offset limit : ℤ) (filter : Option Bool) → Keeps P (store.list offset limit filter)
    pub count : (filter : Option Bool) → Keeps P (store.count filter)
    pub exist : (id : Uuid) → Keeps P (store.exist id)
    pub get_user_group_ids : (id : Uuid) → Keeps P (store.get_user_group_ids id)

  -- The operations of an administrator.
  pub record WritesKeep (store : UserStorage S) : Type 0 where
    pub create : (u : User) → Keeps P (store.create u)
    pub update : (id : Uuid) (u : User) → Keeps P (store.update id u)
    pub delete : (id : Uuid) → Keeps P (store.delete id)

  -- New sessions are drawn from this outcome of the generator.
  pub record SessionsKeep (random : Result Bytes) (sessions : SessionStorage S) : Type 0 where
    pub create :
        (id : Uuid) (agent ip : Bytes) (ttl : ℕ) → Keeps P (sessions.create random id agent ip ttl)
    pub get_valid : (token : Bytes) → Keeps P (sessions.get_valid token)
    pub revoke : (token : Bytes) → Keeps P (sessions.revoke token)

  pub record PatsKeep (pats : PatStorage S) : Type 0 where
    pub create :
        (id : Uuid) (hash prefix name : Bytes) (scopes : List Bytes) (expiry : Option Time)
        → Keeps P (pats.create id hash prefix name scopes expiry)
    pub get_by_hash : (hash : Bytes) → Keeps P (pats.get_by_hash hash)
    pub list_by_user : (id : Uuid) → Keeps P (pats.list_by_user id)
    pub revoke : (id user_id : Uuid) → Keeps P (pats.revoke id user_id)
    pub touch_last_used : (id : Uuid) → Keeps P (pats.touch_last_used id)
