-- ===== src/Controller/StartupTests.antt =====
-- A controller that starts, serves and ends.
use zeronet.Prelude.{◌≡◌, refl, String, true, false, List, [], ◌∷◌, ◌++◌, none, some}
use zeronet.Go.{ok}
use zeronet.Controller.Auth.Config.{
  OpenidConfig, Provider, Environment, document, TokenValidator, new_token_validator,
  get_openid_configuration,
}
use zeronet.Controller.Startup.{
  Flags, Driver, Boot, Services, default_flags, new_store, start_controller, with_services,
}
use zeronet.Controller.Services.{
  Event, signalled, grpc_fails, http_fails, cleans, new_group, group_run, ending, fatal,
}
use zeronet.Controller.Services.Ends.{ending_lem}

abbrev discovery : OpenidConfig
discovery = record {
  issuer = "https://id.example";
  auth_endpoint = "https://id.example/authorize";
  token_endpoint = "https://id.example/token";
  jwks_endpoint = "https://id.example/keys";
  scopes = [];
  claims = [];
  userinfo_endpoint = "https://id.example/userinfo";
}

abbrev environment : Environment
environment = record {
  openid_config_url = "https://id.example/config";
  openid_client_id = "zeronet";
  openid_audience = "zeronet-api";
  openid_callback_url = "http://127.0.0.1:9999";
}

abbrev provider : Provider
provider = record {
  Keyfunc = String;
  get = λ url. document (ok discovery);
  new_keyfunc = λ url. ok url;
}

-- A database that cannot be migrated.
abbrev driver : Driver
driver = record {
  Db = String;
  open_database = λ path. ok path;
  handle = λ db. none;
  ping = λ db. none;
  auto_migrate = λ db. (db, some "disk is full");
}

abbrev boot : Boot
boot = record {
  driver = driver;
  provider = provider;
  environment = environment;
  Network = String;
  parse_prefix = λ text. ok text;
  register_gateway = λ endpoint. none;
}

abbrev flags : Flags
unfolding default_flags
flags = record default_flags { grpc_port = 6000; http_port = 9090 }

abbrev validator : TokenValidator provider
validator = record {
  kf = "https://id.example/keys";
  config = discovery;
  client_id = "zeronet";
  audience = "zeronet-api";
  redirect_uri = "http://127.0.0.1:9999";
  user_cache = [];
}

abbrev services : Services boot
services = record {
  store = "store.db";
  network = "100.70.0.0/24";
  validator = validator;
  grpc_port = 6000;
  gateway_endpoint = "localhost:50000";
  http_address = ":8080";
}

starts : start_controller boot flags ≡ ok services
unfolding start_controller with_services new_store new_token_validator get_openid_configuration
    default_flags
starts = refl

-- Both servers fail, and a signal arrives.
abbrev troubles : List Event
troubles = http_fails "address in use" ∷ signalled ∷ grpc_fails "closed" ∷ []

ending_lem_example :
    (ending (group_run troubles new_group) ≡ none)
    × (ending (group_run (troubles ++ cleans true false ∷ signalled ∷ []) new_group)
        ≡ some (fatal "address in use"))
ending_lem_example = ending_lem troubles (signalled ∷ []) true false (tt, (tt, (tt, tt))) refl
