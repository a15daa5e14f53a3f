-- ===== src/Connect/Pats.antt =====
-- pkg/auth/pat_connect_server.go: the procedures of `AuthConnectServer` on personal access tokens.
pub mod Ownership
pub mod Keeps
use go_cloud_k8s_auth.Prelude.{
  ℕ, Bytes, ◌==◌, bytes_eq, Bool, true, false, Option, none, some, List, map, if◌then◌else◌,
}
use go_cloud_k8s_auth.Prelude.Int.{ℤ, pos, int_eq}
use go_cloud_k8s_auth.Prelude.Error.{
  Error, Result, ok, err, Action, is, invalid_input, pat_not_found,
}
use go_cloud_k8s_auth.Domain.{Uuid, Time, User, PersonalAccessToken}
use go_cloud_k8s_auth.Platform.{Platform}
use go_cloud_k8s_auth.Storage.{UserStorage, PatStorage}
use go_cloud_k8s_auth.PatService
use go_cloud_k8s_auth.PatService.{PatIntrospection, inactive, is_revoked}
use go_cloud_k8s_auth.Connect.{
  Code, invalid_argument, unauthenticated, internal, Reply, reply, fail, Handler, respond, refuse,
  serve, ◌>>=◌, ◌>>◌, Context, get_user_from_context,
}

-- `authv1.PersonalAccessTokenInfo`
pub record PatInfo : Type 0 where
  pub id : Bytes
  pub name : Bytes
  pub prefix : Bytes
  pub scopes : List Bytes
  pub created_at : Time
  pub expires_at : Option Time
  pub last_used_at : Option Time
  pub revoked : Bool

unfoldable pub pat_info_to_proto : Platform → PersonalAccessToken → PatInfo
pat_info_to_proto pf p = record {
  id = pf.uuid_string p.id;
  name = p.name;
  prefix = p.prefix;
  scopes = p.scopes;
  created_at = p.created_at;
  expires_at = p.expires_at;
  last_used_at = p.last_used_at;
  revoked = is_revoked p;
}

pub data Response : Type 0 where
  introspected : PatIntrospection → Response
  created : Bytes → PatInfo → Response
  listed : List PatInfo → Response
  revoked : Response

abbrev pub create_code : Error → Code
create_code e = if is e invalid_input then invalid_argument else internal

abbrev pub revoke_code : Error → Code
revoke_code e = if is e pat_not_found then Code.not_found else internal

module _ {S : Type 0} (pf : Platform) (pats : PatStorage S) (store : UserStorage S) where
  unfoldable pub current_user_uuid : Context → Handler S Uuid
  current_user_uuid ctx =
      let user_id = (get_user_from_context ctx).0 in
      if user_id == pos 0 then refuse unauthenticated else do
        user ← serve (λ _. unauthenticated) (store.get_by_alternate_app_id user_id)
        respond user.id

  -- The fields besides `active` are set only where it is.
  abbrev to_response : PatIntrospection → PatIntrospection
  to_response r = if r.active then r else inactive

  unfoldable pub introspect_token : Time → Bytes → Handler S Response
  introspect_token now token = do
    result ← serve (λ _. internal) (PatService.introspect pf pats store now token)
    respond (introspected (to_response result))

  unfoldable pub create_personal_access_token :
      (ℕ → Result ℕ) → Time → Context → Bytes → List Bytes → ℤ → Handler S Response
  create_personal_access_token draw now ctx name scopes expires_in_days = do
    user_uuid ← current_user_uuid ctx
    (token, pat) ←
        serve create_code
          (PatService.create pf pats store draw now user_uuid name scopes expires_in_days)
    respond (created token (pat_info_to_proto pf pat))

  unfoldable pub list_personal_access_tokens : Context → Handler S Response
  list_personal_access_tokens ctx = do
    user_uuid ← current_user_uuid ctx
    rows ← serve (λ _. internal) (PatService.list pf pats store user_uuid)
    respond (listed (map (pat_info_to_proto pf) rows))

  parse_pat_id : Bytes → Handler S Uuid
  parse_pat_id text s = elim (pf.parse_uuid text) [
    | none ↦ (fail invalid_argument, s)
    | some id ↦ (reply id, s)
  ]

  unfoldable pub revoke_personal_access_token : Context → Bytes → Handler S Response
  unfolding parse_pat_id
  revoke_personal_access_token ctx msg_id = do
    user_uuid ← current_user_uuid ctx
    pat_id ← parse_pat_id msg_id
    serve revoke_code (PatService.revoke pf pats store pat_id user_uuid)
    respond revoked
