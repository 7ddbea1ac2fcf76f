-- ===== src/Node/Command/Manage.antt =====
-- node/cmd/service.go, node/cmd/root.go and node/cmd/keypair.go: the commands that hand the service to the
-- service manager of the system, a parameter, and the one that makes a pair of keys.
use zeronet.Prelude.{String, List, [], ◌∷◌, Option, none, some}
use zeronet.Go.{Result, ok, err}
use zeronet.Node.Noise.{DhKey}
use zeronet.Node.Keys.{generate_new_keypair}
use zeronet.Node.Command.{Exit, returns, fatal}

pub record ServiceConfig : Type 0 where
  pub name : String
  pub display_name : String
  pub description : String
  pub options : List (String × String)

unfoldable pub service_config : ServiceConfig
service_config = record {
  name = "com.zeronet.node.service";
  display_name = "Zeronet Node Service";
  description = "Zeronet Node Service";
  options = ("Restart", "on-success") ∷ ("SuccessExitStatus", "1 2 8 SIGKILL") ∷ [];
}

-- github.com/kardianos/service: a service, or the error of `New`, and the errors of its methods.
pub record Manager : Type 1 where
  pub Service : Type 0
  pub new : ServiceConfig → Result String Service
  pub start : Service → Option String
  pub run : Service → Option String
  pub install : Service → Option String
  pub uninstall : Service → Option String
  pub stop : Service → Option String
  pub logger : Service → Option String

module _ (M : Manager) where
  unfoldable pub new_service : Result String M.Service
  new_service = M.new service_config

  abbrev exit_of : Option String → Exit
  exit_of none = returns []
  exit_of (some e) = fatal e

  -- What five of the commands do: the service is made, and one method of it is called.
  unfoldable pub manage : (M.Service → Option String) → Exit
  manage method = elim new_service [ err e ↦ fatal e | ok s ↦ exit_of (method s) ]

  unfoldable pub start_command : Exit
  start_command = manage M.start

  unfoldable pub run_command : Exit
  run_command = manage M.run

  unfoldable pub install_command : Exit
  install_command = manage M.install

  unfoldable pub uninstall_command : Exit
  uninstall_command = manage M.uninstall

  unfoldable pub stop_command : Exit
  stop_command = manage M.stop

  -- The command without a name, which also makes the logger before it runs the service.
  unfoldable pub root_command : Exit
  root_command = elim new_service [
    | err e ↦ fatal e
    | ok s ↦ elim (M.logger s) [ some e ↦ fatal e | none ↦ exit_of (M.run s) ]
  ]

-- The pair that is made is not kept.
unfoldable pub generate_command : Result String DhKey → Exit
generate_command random = elim (generate_new_keypair random) [
  | err e ↦ returns (e ∷ [])
  | ok keypair ↦ returns []
]
