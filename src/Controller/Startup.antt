-- ===== src/Controller/Startup.antt =====
-- controller/cmd/root.go and controller/db/db.go: how the controller starts, up to the group of goroutines
-- that serve. The database, the parser of prefixes, the provider and the gateway are parameters.
use zeronet.Prelude.{ℕ, String, Bool, false, Option, none, some}
use zeronet.Go.{Result, ok, err}
use zeronet.Controller.Auth.Config.{Provider, Environment, TokenValidator, new_token_validator}

-- The variables that the flags set.
pub record Flags : Type 0 where
  pub store_path : String
  pub prefix : String
  pub auto_cert : Bool
  pub grpc_port : ℕ
  pub http_port : ℕ
  pub debug : Bool

unfoldable pub default_flags : Flags
default_flags = record {
  store_path = "store.db";
  prefix = "100.70.0.0/24";
  auto_cert = false;
  grpc_port = 50000;
  http_port = 8080;
  debug = false;
}

-- gorm with its driver for sqlite: a database for a path, or an error, and what the calls on it come to.
pub record Driver : Type 1 where
  pub Db : Type 0
  pub open_database : String → Result String Db
  pub handle : Db → Option String
  pub ping : Db → Option String
  pub auto_migrate : Db → Db × Option String

pub record Boot : Type 1 where
  pub driver : Driver
  pub provider : Provider
  pub environment : Environment
  pub Network : Type 0
  pub parse_prefix : String → Result String Network
  pub register_gateway : (endpoint : String) → Option String

-- What the servers are started with.
pub record Services (B : Boot) : Type 0 where
  pub store : B.driver.Db
  pub network : B.Network
  pub validator : TokenValidator B.provider
  pub grpc_port : ℕ
  pub gateway_endpoint : String
  pub http_address : String

-- The calls of `log.Fatal`.
pub data StartError : Type 0 where
  opening_store parsing_prefix creating_validator registering_gateway : String → StartError

-- The error of the migration is assigned and not looked at.
unfoldable pub new_store : (D : Driver) → String → Result String D.Db
new_store D path = elim (D.open_database path) [
  | err e ↦ err e
  | ok db ↦ elim (D.handle db) [
    | some e ↦ err e
    | none ↦ elim (D.ping db) [ some e ↦ err e | none ↦ ok (D.auto_migrate db).0 ]
  ]
]

module _ (B : Boot) where
  unfoldable pub with_services :
      Flags → B.driver.Db → B.Network → TokenValidator B.provider → Result StartError (Services B)
  with_services f db network validator = elim (B.register_gateway "localhost:50000") [
    | some e ↦ err (registering_gateway e)
    | none ↦ ok (record {
      store = db;
      network = network;
      validator = validator;
      grpc_port = f.grpc_port;
      gateway_endpoint = "localhost:50000";
      http_address = ":8080";
    })
  ]

  unfoldable pub start_controller : Flags → Result StartError (Services B)
  start_controller f = elim (new_store B.driver f.store_path) [
    | err e ↦ err (opening_store e)
    | ok db ↦ elim (B.parse_prefix f.prefix) [
      | err e ↦ err (parsing_prefix e)
      | ok network ↦ elim (new_token_validator B.provider B.environment) [
        | err e ↦ err (creating_validator e)
        | ok validator ↦ with_services f db network validator
      ]
    ]
  ]
