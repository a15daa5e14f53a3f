-- ===== src/Program/Login.antt =====
-- cmd/goCloudAuthServer/goCloudAuthServer.go: the form login and the probes of `Service`. The
-- authenticator and the database's version query are parameters.
pub mod Accounts
use go_cloud_k8s_auth.Prelude.{
  ℕ, Bytes, Bool, true, false, Option, none, some, List, [], ◌∷◌, if◌then◌else◌, length, ltb, eqb,
  ◌≡◌, refl, inl, inr, arith, ◌+◌, ◌*◌,
}
use go_cloud_k8s_auth.Prelude.Int.{ℤ}
use go_cloud_k8s_auth.Prelude.Strings.{str, is_empty, trim_right}
use go_cloud_k8s_auth.Prelude.Error.{Result, ok, err}
use go_cloud_k8s_auth.Domain.{Time}
use go_cloud_k8s_auth.Platform.{Platform, UserInfo}

pub record UserLogin : Type 0 where
  pub password_hash : Bytes
  pub username : Bytes

-- What `login` reads of a request: the form, and the body bound to a `UserLogin`.
pub record LoginRequest : Type 0 where
  pub form_value : Bytes → Bytes
  pub bind : Option UserLogin

-- `goHttpEcho.Authentication`
pub record Authenticator : Type 0 where
  pub authenticate_user : Bytes → Bytes → Bool
  pub get_user_info_from_login : Bytes → Result UserInfo

-- A status, and the token of the answer, which is empty unless the status is 200.
pub record LoginAnswer : Type 0 where
  pub status : ℕ
  pub token : Bytes

abbrev pub denied : ℕ → LoginAnswer
denied status = record { status = status; token = [] }

trim_left : ℕ → Bytes → Bytes
trim_left b [] = []
trim_left b (c ∷ s) = let rest = trim_left b s in if eqb c b then rest else c ∷ s

-- `len(strings.Trim(login, " ")) < 1`
unfoldable pub is_blank : Bytes → Bool
unfolding trim_left
is_blank login = is_empty (trim_right b' ' (trim_left b' ' login))

-- The login of the form, or else of the body.
unfoldable pub credentials : LoginRequest → Option UserLogin
credentials req =
    if is_blank (req.form_value (str "login"))
    then req.bind
    else some (record {
      password_hash = req.form_value (str "hashed");
      username = req.form_value (str "login");
    })

module _ (pf : Platform) (auth : Authenticator) where
  unfoldable pub login : LoginRequest → LoginAnswer
  unfolding credentials
  login req = elim (credentials req) [
    | none ↦ denied 400
    | some u ↦
        if auth.authenticate_user u.username u.password_hash
        then elim (auth.get_user_info_from_login (req.form_value (str "login"))) [
          | err _ ↦ denied 401
          | ok info ↦ elim (pf.token_from_user_info info) [
            | err _ ↦ denied 401
            | ok token ↦ record { status = 200; token = token }
          ]
        ]
        else denied 401
  ]

-- `GetStatus`: the claims of the request's JWT.
abbrev pub get_status : UserInfo → UserInfo
get_status claims = claims

-- `IsDBAlive`, on the outcome of the database's GetVersion.
unfoldable pub is_db_alive : Result Bytes → Bool
is_db_alive (err _) = false
is_db_alive (ok ver) = if ltb (length ver) 2 then false else true

unfoldable pub check_ready : Result Bytes → Bool
unfolding is_db_alive
check_ready version = if is_db_alive version then true else false

abbrev pub check_healthy : Bool
check_healthy = true
