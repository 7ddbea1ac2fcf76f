-- ===== src/Node/Command/Tests.antt =====
-- The commands of a node on a few inputs.
use zeronet.Node.Keys.{generate_new_keypair}
use zeronet.Prelude.{
  ◌≡◌, refl, String, true, false, [], ◌∷◌, ◌++◌, map, none, some, str_eq, if◌then◌else◌,
}
use zeronet.Go.{done, panics, nil_pointer, ok, err}
use zeronet.Node.New.{Machine, new_node}
use zeronet.Node.AuthFlow.{
  LoginResponse, Oauth, OauthConfig, Arrival, request, server_closed, Flow, config_of, auth_flow,
  serve, handle_callback,
}
use zeronet.Node.AuthFlow.Codes.{auth_flow_lem}
use zeronet.Node.Command.{returns, fatal}
use zeronet.Node.Command.Client.{fresh_flow}
use zeronet.Node.Command.Program.{Program, start_program}
use zeronet.Node.Command.Manage.{
  Manager, service_config, root_command, generate_command, new_service,
}
use zeronet.Node.Noise.{DhKey}
use zeronet.Node.Peer.Tests.{toy}
use zeronet.Node.AuthFlow
use mathlib.Core.Option

abbrev response : LoginResponse
response = record {
  status = "need access token";
  client_id = "zeronet";
  auth_endpoint = "https://id.example/authorize";
  token_endpoint = "https://id.example/token";
  redirect_uri = "http://127.0.0.1:9999";
  audience = "zeronet-api";
}

-- The provider knows one code.
abbrev pub oauth : Oauth
oauth = record {
  generate_verifier = "verifier";
  auth_code_url = λ conf verifier audience. conf.auth_url;
  exchange = λ conf code verifier. if str_eq code "good" then ok "token" else err "invalid_grant";
  port_of = λ url. ok "9999";
  listen = λ port. none;
}

-- The browser asks for an icon without a code, and then hands over a code that the provider does not know.
auth_flow_lem_example :
    (g : Flow) × (auth_flow oauth response
        (map request ("" ∷ "stale" ∷ []) ++ server_closed ∷ [])
        fresh_flow
      ≡ panics nil_pointer)
    × (g.opened ≡ some "https://id.example/authorize")
unfolding config_of
auth_flow_lem_example =
    auth_flow_lem oauth response "" ("stale" ∷ []) [] fresh_flow "9999" refl refl refl refl

gets_token :
    auth_flow oauth response (request "good" ∷ request "" ∷ server_closed ∷ []) fresh_flow
    ≡ done (
      record fresh_flow {
        tok = some "token";
        registered = true;
        closing = true;
        pages = AuthFlow.code_missing ∷ AuthFlow.login_successful ∷ [];
        opened = some "https://id.example/authorize";
      },
      ok "token",
    )
unfolding auth_flow serve handle_callback config_of
gets_token = refl

abbrev keys : DhKey
keys = record { public = 1 ∷ []; private = 2 ∷ [] }

abbrev machine_answers : Machine
machine_answers = record {
  key_pair = some keys;
  machine_id = some "0123";
  host = some "desk.local";
  dials = true;
}

abbrev unstarted : Program toy
unstarted = record { node = none; server = false; serving = false; logger = none }

abbrev started : Program toy
unfolding new_node Option.bind
started = record unstarted { node = new_node machine_answers; server = true; serving = true }

starts : start_program machine_answers unstarted ≡ done started
unfolding start_program new_node Option.bind
starts = refl

abbrev manager : Manager
manager = record {
  Service = String;
  new = λ config. ok config.name;
  start = λ s. none;
  run = λ s. some "not installed";
  install = λ s. none;
  uninstall = λ s. none;
  stop = λ s. none;
  logger = λ s. none;
}

runs : root_command manager ≡ fatal "not installed"
unfolding root_command new_service service_config
runs = refl

generates : generate_command (ok keys) ≡ returns []
unfolding generate_command generate_new_keypair
generates = refl
