-- ===== src/Server/Routes.antt =====
-- The routes that `main` registers (cmd/goCloudAuthServer/goCloudAuthServer.go), with those of
-- `RegisterRoutes` (pkg/auth/browser_handlers.go), and what serves a request. Echo's router and
-- Vanguard's transcoder are parameters.
use go_cloud_k8s_auth.Prelude.{Bytes, Option, none, some, List, [], ◌∷◌, ◌++◌, if◌then◌else◌}
use go_cloud_k8s_auth.Prelude.Strings.{str, has_prefix, strip_prefix}
use go_cloud_k8s_auth.AuthService.{App}
use go_cloud_k8s_auth.Browser.{Request, Response, Cookie, Page}
use go_cloud_k8s_auth.Browser.Handlers
use go_cloud_k8s_auth.Connect.{Reply}
use go_cloud_k8s_auth.Server.{Answer, Moment, Wiring}
use go_cloud_k8s_auth.Server.Services.{
  Case, switch, new_auth_service_handler, new_user_service_handler,
}

pub data Method : Type 0 where
  get post any_method : Method

-- What a route leads to.
pub data Target : Type 0 where
  metrics readiness health app_info jwt_login jwt_status : Target
  at_login at_oauth_start at_oauth_callback at_token at_logout : Target
  -- the transcoder behind `http.StripPrefix` with this prefix
  transcoder : Bytes → Target

pub record Route : Type 0 where
  pub method : Method
  pub pattern : Bytes
  pub target : Target

-- `RegisterRoutes`
abbrev pub register_routes : List Route
register_routes =
    record { method = get; pattern = str "/auth/login"; target = at_login }
    ∷ record { method = get; pattern = str "/auth/oauth/:provider/start"; target = at_oauth_start }
    ∷ record {
      method = get;
      pattern = str "/auth/oauth/:provider/callback";
      target = at_oauth_callback;
    }
    ∷ record { method = get; pattern = str "/auth/token"; target = at_token }
    ∷ record { method = post; pattern = str "/auth/logout"; target = at_logout }
    ∷ []

abbrev pub default_app_info_url : Bytes
default_app_info_url = str "/goAppInfo"

abbrev pub default_secured_api : Bytes
default_secured_api = str "/goapi/v1"

-- The routes up to the restricted group, of which `defaultSecuredApi` is the prefix.
abbrev pub service_routes : Bytes → Bytes → List Route
service_routes jwt_auth_url jwt_status_url =
    record { method = get; pattern = str "/metrics"; target = metrics }
    ∷ record { method = get; pattern = str "/readiness"; target = readiness }
    ∷ record { method = get; pattern = str "/health"; target = health }
    ∷ record { method = get; pattern = default_app_info_url; target = app_info }
    ∷ record { method = post; pattern = jwt_auth_url; target = jwt_login }
    ∷ record { method = get; pattern = default_secured_api ++ jwt_status_url; target = jwt_status }
    ∷ []

-- The mounted transcoder.
abbrev pub rpc_routes : List Route
rpc_routes =
    record { method = any_method; pattern = str "/auth.v1.AuthService/*"; target = transcoder [] }
    ∷ record { method = any_method; pattern = str "/auth.v1.UserService/*"; target = transcoder [] }
    ∷ record {
      method = any_method;
      pattern = str "/goapi/v1/auth/*";
      target = transcoder (str "/goapi");
    }
    ∷ record {
      method = any_method;
      pattern = str "/goapi/v1/user*";
      target = transcoder (str "/goapi/v1");
    }
    ∷ []

abbrev pub routes : Bytes → Bytes → List Route
routes jwt_auth_url jwt_status_url =
    service_routes jwt_auth_url jwt_status_url ++ (register_routes ++ rpc_routes)

-- A request: `form` is what the browser handlers read of it.
pub record Http : Type 0 where
  pub verb : Bytes
  pub path : Bytes
  pub body : Bytes
  pub form : Request

-- Echo's choice of a route, with the value of `:provider`; and the transcoder's reading of a request
-- under a path, as the procedure and its message in the Connect protocol.
pub record Network : Type 0 where
  pub find_route : List Route → Http → Option (Target × Bytes)
  pub transcode : Http → Bytes → Option (Bytes × Bytes)

pub data Outcome : Type 0 where
  not_found service_page : Outcome
  rpc : Reply Answer → Outcome
  page : Response → Option Cookie → Outcome

module _ {S : Type 0} (w : Wiring S) (net : Network) where
  -- The service of a procedure, by the path on which its handler is mounted.
  abbrev pub cases_of : Moment → Bytes → List (Case S)
  cases_of m procedure =
      if has_prefix procedure (str "/auth.v1.AuthService/")
      then new_auth_service_handler w m
      else if has_prefix procedure (str "/auth.v1.UserService/")
      then new_user_service_handler w m
      else []

  -- A procedure of the transcoder's two services.
  unfoldable pub call : Moment → Bytes → Bytes → App S → Outcome × App S
  call m procedure message s = elim (switch procedure (cases_of m procedure)) [
    | none ↦ (not_found, s)
    | some (_, h) ↦ let (r, t) = h message s in (rpc r, t)
  ]

  unfoldable pub transcoded : Moment → Http → Bytes → App S → Outcome × App S
  unfolding call
  transcoded m req path s = elim (net.transcode req path) [
    | none ↦ (not_found, s)
    | some (procedure, message) ↦ call m procedure message s
  ]

  abbrev shown : Page S → App S → Outcome × App S
  shown handler s = let (r, cookie, t) = handler s in (page r cookie, t)

  unfoldable pub dispatch : Moment → Http → Bytes → Target → App S → Outcome × App S
  unfolding transcoded
  dispatch m req provider at_login s =
      shown
        (Handlers.handle_login w.platform w.settings (w.users m.now) (w.sessions m.now) w.browser
          (record req.form { provider = provider }))
        s
  dispatch m req provider at_oauth_start s =
      shown
        (Handlers.handle_oauth_start w.platform w.settings (w.users m.now) (w.sessions m.now)
          w.browser m.random m.now (record req.form { provider = provider }))
        s
  dispatch m req provider at_oauth_callback s =
      shown
        (Handlers.handle_oauth_callback w.platform w.settings (w.users m.now) (w.sessions m.now)
          w.browser m.random m.now (record req.form { provider = provider }))
        s
  dispatch m req provider at_token s =
      shown
        (Handlers.handle_token w.platform w.settings (w.users m.now) (w.sessions m.now) w.browser
          (record req.form { provider = provider }))
        s
  dispatch m req provider at_logout s =
      shown
        (Handlers.handle_logout w.platform w.settings (w.users m.now) (w.sessions m.now) w.browser
          (record req.form { provider = provider }))
        s
  dispatch m req provider (transcoder prefix) s = elim (strip_prefix prefix req.path) [
    | none ↦ (not_found, s)
    | some path ↦ transcoded m req path s
  ]
  dispatch m req provider _ s = (service_page, s)

  unfoldable pub serve : Bytes → Bytes → Moment → Http → App S → Outcome × App S
  unfolding dispatch
  serve jwt_auth_url jwt_status_url m req s =
      elim (net.find_route (routes jwt_auth_url jwt_status_url) req) [
        | none ↦ (not_found, s)
        | some (target, provider) ↦ dispatch m req provider target s
      ]
