-- ===== src/Controller/Auth/Config.antt =====
-- controller/auth/oauth.go: the configuration of the identity provider, which the controller reads when it
-- starts and hands out to nodes. The provider's endpoint and the library for its keys are parameters.
use zeronet.Prelude.{String, List, []}
use zeronet.Go.{Result, ok, err}
use zeronet.Controller.Auth.{Cache}

pub record OpenidConfig : Type 0 where
  pub issuer : String
  pub auth_endpoint : String
  pub token_endpoint : String
  pub jwks_endpoint : String
  pub scopes : List String
  pub claims : List String
  pub userinfo_endpoint : String

-- A `Get`: it fails, or the body of the response decodes or not, whatever its status is; a member that
-- the document does not have is empty.
pub data Fetched : Type 0 where
  unreachable : String → Fetched
  document : Result String OpenidConfig → Fetched

-- What stands at a URL, and the keys at another.
pub record Provider : Type 1 where
  pub Keyfunc : Type 0
  pub get : String → Fetched
  pub new_keyfunc : String → Result String Keyfunc

-- The variables that the controller reads.
pub record Environment : Type 0 where
  pub openid_config_url : String
  pub openid_client_id : String
  pub openid_audience : String
  pub openid_callback_url : String

-- `ctrlv1.GetPKCEAuthInfoResponse`
pub record PkceAuthInfo : Type 0 where
  pub client_id : String
  pub auth_endpoint : String
  pub token_endpoint : String
  pub redirect_uri : String
  pub audience : String

module _ (P : Provider) where
  unfoldable pub get_openid_configuration : String → Result String OpenidConfig
  get_openid_configuration url = elim (P.get url) [ unreachable e ↦ err e | document d ↦ d ]

  pub record TokenValidator : Type 0 where
    pub kf : P.Keyfunc
    pub config : OpenidConfig
    pub client_id : String
    pub audience : String
    pub redirect_uri : String
    pub user_cache : Cache

  unfoldable pub new_token_validator : Environment → Result String TokenValidator
  new_token_validator env = elim (get_openid_configuration env.openid_config_url) [
    | err e ↦ err e
    | ok config ↦ elim (P.new_keyfunc config.jwks_endpoint) [
      | err e ↦ err e
      | ok kf ↦ ok (record {
        kf = kf;
        config = config;
        client_id = env.openid_client_id;
        audience = env.openid_audience;
        redirect_uri = env.openid_callback_url;
        user_cache = [];
      })
    ]
  ]

  unfoldable pub get_pkce_auth_info : TokenValidator → PkceAuthInfo
  get_pkce_auth_info t = record {
    client_id = t.client_id;
    auth_endpoint = t.config.auth_endpoint;
    token_endpoint = t.config.token_endpoint;
    redirect_uri = t.redirect_uri;
    audience = t.audience;
  }
