-- ===== src/System/Tests.antt =====
-- A node whose user logs in to a controller that knows its machine.
use zeronet.Prelude.{none, ◌↔◌, ◌≡◌, refl, true, [], ◌∷◌}
use zeronet.Go.{done, panics, nil_pointer, failed}
use zeronet.Addr.{v4}
use zeronet.Node.State.{Node}
use zeronet.Node.Service.{login, login_request, configure, login_successful}
use zeronet.Node.Tests.{home, net, home-NodeInv}
use zeronet.Node.Peer.Tests.{toy, toy_pattern}
use zeronet.Go.SyncMap.{load, nat_key}
use zeronet.Node.Client.{handle_update}
use zeronet.Controller.Channels.{announcement, connect}
use zeronet.Controller.Types.{Peer, PeerConfig, proto_config, is_auth_expired}
use zeronet.Controller.Store.Table.{table}
use zeronet.Controller.Ipam.Unary.{netip}
use zeronet.Controller.Server.{process_peer_login}
use zeronet.Controller.Grpc.{GrpcServer, login_peer, login_known, validate_machine_id}
use zeronet.Controller.Grpc.Login.{Admitted}
use zeronet.Controller.Grpc.Rejections.{Rejects, is_disabled, Refuses}
use zeronet.Controller.Grpc.Rejections.Complete.{login_peer-Rejects}
use zeronet.Controller.Grpc.Tests.{plain, grpc, server}
use zeronet.Controller.Tests.{machine, laptop, idp}
use zeronet.System.{log_in}
use zeronet.System.Announcement.{handle_update-announcement}
use zeronet.System.Commands.{Ended, running, node_service, login_command-Ended}
use zeronet.Node.Start.{World}
use zeronet.Node.Command.{returns}
use zeronet.Node.Command.Client.{NodeService, login_command, after_login}
use zeronet.Node.Command.Tests.{oauth}
use zeronet.Node.AuthFlow.{response_of}
use zeronet.Controller.Auth.Config.{PkceAuthInfo}
use zeronet.System.Login.{log_in-Admitted, log_in-panics}

abbrev row : Peer
row = record laptop { prefix = "10.0.0.0/24" }

abbrev controller : GrpcServer table idp netip plain
controller = record grpc { controller = record server { db = row ∷ [] } }

abbrev node : Node toy
node = record home {
  machine_id = machine;
  hostname = "laptop";
  discovered_endpoint = "1.2.3.4:5000";
}

abbrev controller_after : GrpcServer table idp netip plain
controller_after = record controller {
  controller = record server {
    db =
        record row {
          noise_public_key = "new key";
          endpoint = "1.2.3.4:5000";
          last_login = 9;
          updated_at = 9;
        }
        ∷ [];
  };
}

abbrev node_after : Node toy
node_after = record node { id = 1; ip = record { addr = v4 5; bits = 24 } }

logs_in :
    log_in net table idp netip plain 9 "token" true node controller
    ≡ done (node_after, controller_after, login_successful)
unfolding log_in login_request login configure login_peer validate_machine_id is_auth_expired
    login_known process_peer_login proto_config
logs_in = refl

log_in-Admitted_example :
    (node_after.logged_in ≡ true)
    × ((cfg : PeerConfig) × Admitted table 9 machine cfg controller_after.controller.db
        × (node_after.id ≡ cfg.peer_id))
log_in-Admitted_example =
    log_in-Admitted net table idp netip plain 9 "token" true node node_after controller
      controller_after logs_in

abbrev disabling : GrpcServer table idp netip plain
disabling = record grpc { controller = record server { db = record row { disabled = true } ∷ [] } }

disabled_row : Rejects table idp netip plain 9 (login_request net "token" node) disabling
unfolding validate_machine_id login_request
disabled_row = is_disabled refl (record row { disabled = true }) refl refl

turned_away :
    Refuses table idp netip plain
      (login_peer table idp netip plain 9 (login_request net "token" node) disabling)
turned_away =
    (login_peer-Rejects table idp netip plain 9 (login_request net "token" node) disabling).0
      disabled_row

log_in-panics_example :
    Rejects table idp netip plain 9 (login_request net "token" node) disabling
    × (log_in net table idp netip plain 9 "token" true node disabling ≡ panics nil_pointer)
log_in-panics_example =
    log_in-panics net table idp netip plain 9 "token" true node disabling turned_away

login_peer-Rejects_example :
    Rejects table idp netip plain 9 (login_request net "token" node) disabling
    ↔ Refuses table idp netip plain
        (login_peer table idp netip plain 9 (login_request net "token" node) disabling)
login_peer-Rejects_example =
    login_peer-Rejects table idp netip plain 9 (login_request net "token" node) disabling

-- The peer of the node, before it has discovered an endpoint.
abbrev desk : Peer
desk = record row { id = 3; hostname = "desk"; endpoint = "" }

handle_update-announcement_example :
    handle_update net (announcement connect desk) home ≡ panics failed
unfolding load
handle_update-announcement_example =
    (handle_update-announcement toy_pattern net desk home home-NodeInv).2 0 refl refl

abbrev provider_info : PkceAuthInfo
provider_info = record {
  client_id = "zeronet";
  auth_endpoint = "https://id.example/authorize";
  token_endpoint = "https://id.example/token";
  redirect_uri = "http://127.0.0.1:9999";
  audience = "zeronet-api";
}

abbrev world : World
world = record { socket = true; tunnel = true; address = true; stun = true; first_update = none }

abbrev service : NodeService
service = node_service toy net table idp netip plain 9 provider_info world (λ e. "error")

command_logs_in :
    login_command service oauth [] (running node, controller)
    ≡ ((running node_after, controller_after), returns ("node login successful" ∷ []))
unfolding log_in login_request login configure login_peer validate_machine_id is_auth_expired
    login_known process_peer_login proto_config login_command after_login response_of
command_logs_in = refl

login_command-Ended_example :
    Ended toy net table idp netip plain 9 provider_info world
      (λ e. "error")
      oauth
      ("node login successful" ∷ [])
      (running node_after, controller_after)
login_command-Ended_example =
    login_command-Ended toy net table idp netip plain 9 provider_info world (λ e. "error") oauth []
      (running node, controller) (running node_after, controller_after)
      ("node login successful" ∷ []) command_logs_in
