-- ===== src/Node/AuthFlow.antt =====
-- node/authflow.go: the browser of a user gets an access token, with the process of the command as a web
-- server at the redirect URI. The library oauth2, the parser of URLs, the sockets and the browser are
-- parameters.
pub mod Codes
pub mod Granted
use zeronet.Prelude.{
  String, Bool, true, false, List, [], ◌∷◌, Option, none, some, if◌then◌else◌, str_eq,
}
use zeronet.Go.{Outcome, done, panics, blocks, nil_pointer, failed, Result, ok, err, deref, ◌>>=◌}
use Prim.Native.String.{◌++◌}
use zeronet.Node.Service
use zeronet.Node.Service.{need_access_token, error}
use zeronet.Controller.Auth.Config.{PkceAuthInfo}

-- `nodev1.LoginResponse`
pub record LoginResponse : Type 0 where
  pub status : String
  pub client_id : String
  pub auth_endpoint : String
  pub token_endpoint : String
  pub redirect_uri : String
  pub audience : String

-- What `Login` of node/service.go returns, with what the controller has said of the provider.
unfoldable pub response_of : PkceAuthInfo → Service.Login → Result String LoginResponse
response_of info Service.login_successful = ok (record {
  status = "login successful";
  client_id = "";
  auth_endpoint = "";
  token_endpoint = "";
  redirect_uri = "";
  audience = "";
})
response_of info need_access_token = ok (record {
  status = "need access token";
  client_id = info.client_id;
  auth_endpoint = info.auth_endpoint;
  token_endpoint = info.token_endpoint;
  redirect_uri = info.redirect_uri;
  audience = info.audience;
})
response_of info error = err "error getting pkce info for auth flow"

-- `oauth2.Config`
pub record OauthConfig : Type 0 where
  pub client_id : String
  pub auth_url : String
  pub token_url : String
  pub redirect_url : String
  pub scopes : List String

-- `exchange` asks the token endpoint with a code and the verifier, and gives the access token; `listen`
-- is given the text of the port, and `port_of` parses a URL.
pub record Oauth : Type 0 where
  pub generate_verifier : String
  pub auth_code_url : OauthConfig → (verifier audience : String) → String
  pub exchange : OauthConfig → (code verifier : String) → Result String String
  pub port_of : String → Result String String
  pub listen : String → Option String

-- What the web server sees: a request with the `code` of its query, empty if there is none, or its end,
-- which a handler has asked for.
pub data Arrival : Type 0 where
  request : String → Arrival
  server_closed : Arrival

pub data Page : Type 0 where
  code_missing nothing login_successful : Page

-- What the handler leaves: the variable `tok` of the package, whether the end of the server has been asked
-- for, and the answers; and the URL that the browser is sent to. `registered` says that the process has a
-- handler for `/`.
pub record Flow : Type 0 where
  pub tok : Option String
  pub registered : Bool
  pub closing : Bool
  pub pages : List Page
  pub opened : Option String

abbrev pub cleanup : Flow → Flow
cleanup f = record f { closing = true }

abbrev pub shows : Page → Flow → Flow
shows page f = record f { pages = page ∷ f.pages }

unfoldable pub config_of : LoginResponse → OauthConfig
config_of info = record {
  client_id = info.client_id;
  auth_url = info.auth_endpoint;
  token_url = info.token_endpoint;
  redirect_url = info.redirect_uri;
  scopes = "openid profile email offline_access" ∷ [];
}

module _ (O : Oauth) where
  abbrev pub auth_url_of : LoginResponse → String
  auth_url_of info = O.auth_code_url (config_of info) O.generate_verifier info.audience

  -- `Exchange` gives no token with its error, and both are assigned.
  unfoldable pub handle_callback : OauthConfig → String → Flow → Flow
  handle_callback conf code f =
      if str_eq code ""
      then cleanup (shows code_missing f)
      else elim (O.exchange conf code O.generate_verifier) [
        | err e ↦ cleanup (shows nothing (record f { tok = none }))
        | ok token ↦ cleanup (shows login_successful (record f { tok = some token }))
      ]

  -- The server waits for the next request until it is closed.
  unfoldable pub serve : OauthConfig → List Arrival → Flow → Outcome Flow
  serve conf [] f = blocks
  serve conf (request code ∷ later) f = serve conf later (handle_callback conf code f)
  serve conf (server_closed ∷ later) f =
      let rest = serve conf later f in if f.closing then done f else rest

  -- A second handler for the same pattern is a panic of net/http. A browser that cannot be opened is only
  -- reported.
  unfoldable pub auth_flow :
      LoginResponse → List Arrival → Flow → Outcome (Flow × Result String String)
  auth_flow info arrivals f =
      if f.registered
      then panics failed
      else let f = record f { registered = true } in
        elim (O.port_of info.redirect_uri) [
          | err e ↦ done (f, err (("bad redirect URL: " ++ e) ++ "\n"))
          | ok port ↦ elim (O.listen (":" ++ port)) [
            | some e ↦ done (f, err ("can't listen to port :" ++ port ++ ": " ++ e ++ "\n"))
            | none ↦
                serve (config_of info) arrivals (record f { opened = some (auth_url_of info) })
                >>= λ f. deref f.tok >>= λ token. done (f, ok token)
          ]
        ]
