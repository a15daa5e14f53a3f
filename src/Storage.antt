-- ===== src/Storage.antt =====
-- pkg/auth/storage.go, and the interfaces of pkg/auth/session_store.go and pkg/auth/pat_store.go:
-- what the services ask of a storage, as operations on its state `S`. The implementations for
-- PostgreSQL are in the modules below.
pub mod Db
pub mod UserRows
pub mod Users
pub mod Sessions
pub mod Pats
pub mod Keeps
pub mod Owned
use go_cloud_k8s_auth.Prelude.{
  ℕ, Bool, Bytes, Option, none, some, true, List, [], ◌∷◌, ◌++◌, ◌≡◌, ◌⊎◌,
}
use go_cloud_k8s_auth.Prelude.Int.{ℤ}
use go_cloud_k8s_auth.Prelude.Error.{Result, ok, Action}
use go_cloud_k8s_auth.Rbac.{has_role}
use go_cloud_k8s_auth.Storage.UserRows.{with_role}
use go_cloud_k8s_auth.Domain.{
  Uuid, Time, User, UserList, OAuthUserInfo, Session, PersonalAccessToken,
}

pub record UserStorage (S : Type 0) : Type 0 where
  pub upsert_by_provider : OAuthUserInfo → Action S User
  pub get_by_id : Uuid → Action S User
  pub get_by_alternate_app_id : ℤ → Action S User
  pub list : ℤ → ℤ → Option Bool → Action S (List UserList)
  pub create : User → Action S User
  pub update : Uuid → User → Action S User
  -- `none` where the role was already present
  pub add_role : Uuid → Bytes → Action S (Option User)
  pub delete : Uuid → Action S (Unit {0})
  pub count : Option Bool → Action S ℤ
  pub exist : Uuid → S → Bool × S
  pub update_last_login : Uuid → Action S (Unit {0})
  pub get_user_group_ids : Uuid → Action S (List Uuid)

-- `create` is also given the outcome of `rand.Read`.
pub record SessionStorage (S : Type 0) : Type 0 where
  pub create : Result Bytes → Uuid → Bytes → Bytes → ℕ → Action S Bytes
  pub get_valid : Bytes → Action S Session
  pub revoke : Bytes → Action S (Unit {0})
  pub revoke_all_for_user : Uuid → Action S (Unit {0})

pub record PatStorage (S : Type 0) : Type 0 where
  pub create :
      Uuid → Bytes → Bytes → Bytes → List Bytes → Option Time → Action S PersonalAccessToken
  pub get_by_hash : Bytes → Action S PersonalAccessToken
  pub list_by_user : Uuid → Action S (List PersonalAccessToken)
  pub revoke : Uuid → Uuid → Action S (Unit {0})
  pub touch_last_used : Uuid → Action S (Unit {0})

-- The part of the contract of `UserStorage` on which the login rests: a role granted to the user
-- that the upsert has just returned changes that user's roles, and neither
-- the e-mail nor the status; a role that is not granted is there already,
-- unless the user has no list of roles at all.
pub record UserStorageLaws {S : Type 0} (store : UserStorage S) : Type 0 where
  pub grant_after_login :
      (info : OAuthUserInfo) (role : Bytes) (s t t' : S) (u w : User)
      → store.upsert_by_provider info s ≡ (ok u, t)
      → store.add_role u.id role t ≡ (ok (some w), t')
      → (w.email ≡ u.email) × (w.is_active ≡ u.is_active) × (w.roles ≡ with_role role u.roles)
  pub no_grant_after_login :
      (info : OAuthUserInfo) (role : Bytes) (s t t' : S) (u : User)
      → store.upsert_by_provider info s ≡ (ok u, t)
      → store.add_role u.id role t ≡ (ok none, t')
      → (has_role u.roles role ≡ true) ⊎ (u.roles ≡ none)
