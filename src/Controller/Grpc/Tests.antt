-- ===== src/Controller/Grpc/Tests.antt =====
-- The calls of a node, on a controller with one peer.
use mathlib.Core.Bool.{false≢true}
use mathlib.Core.Option.{some-injective}
use zeronet.Controller.Grpc.Punch.{punch-receives}
use zeronet.Controller.Channels.{punch_message, channel_at, Channel, peer_punch_request, send}
use zeronet.Controller.Store.Distinct.{DistinctRows}
use zeronet.Controller.Grpc.Distinct.{login_peer-DistinctRows}
use zeronet.Prelude.{
  ◌≡◌, ◌≢◌, refl, String, true, false, Option, some, none, [], ◌∷◌, ◌⊎◌, eq_iff, sym, ◌∙◌,
}
use zeronet.Go.{done, Result, ok, err}
use zeronet.Go.SyncMap.{load, nat_key, store, delete}
use zeronet.Controller.Types.{Peer, is_auth_expired, proto_config}
use zeronet.Controller.Store.{at_id}
use zeronet.Controller.Store.Table.{table}
use zeronet.Controller.Ipam.{
  invalid, Prefix, get_allocated_ips, parse_all, allocate_peer_ip, next_free, next,
}
use zeronet.Controller.Ipam.Unary.{netip, unary_text}
use zeronet.Controller.Channels.{
  Controller, peer_forced_logout_event, Update, init, delete_peer_update_channel, close,
  get_peer_update_channel, peer_disconnected_event, peer_connected_event, announce, broadcast,
  get_connected_peers,
}
use zeronet.Controller.Server.{
  logout_peer, LoginPeerRequest, database, Failure, process_peer_login, delete_peer,
}
use zeronet.Controller.Server.Rows.{logout_peer-rows}
use zeronet.Controller.Grpc.{
  punch, GrpcServer, login_peer, update_endpoint, validate_machine_id, Status, caller, login_known,
}
use zeronet.Controller.Grpc.Login.{Admitted, login_peer-Admitted}
use zeronet.Controller.Grpc.Endpoint.{MayAnnounce, announced, update_endpoint_lem}
use zeronet.Controller.Grpc.Stream.{Stream, update_stream, end_stream, admit, leave, join, greet}
use zeronet.Controller.Grpc.Stream.Reconnect.{closed_at, end_stream-update_stream}
use zeronet.Controller.Tests.{machine, laptop, network, idp}

abbrev pub server : Controller table
server = record { db = laptop ∷ []; peer_channels = []; channels = []; cleanups = [] }

abbrev touched : Controller table
touched = record server { db = record laptop { updated_at = 9 } ∷ []; cleanups = 1 ∷ [] }

abbrev pub no_failure : Option Failure
no_failure = none

logged_out : logout_peer table 9 laptop server ≡ done (touched, no_failure)
unfolding logout_peer peer_forced_logout_event load
logged_out = refl

logout_peer-rows_example :
    ((no_failure ≡ none)
      × (touched.db ≡ at_id 1 (λ (p : Peer). record p { updated_at = 9 }) (laptop ∷ [])))
    ⊎ ((no_failure ≡ some database) × (touched.db ≡ laptop ∷ []))
logout_peer-rows_example = logout_peer-rows table 9 laptop server touched no_failure logged_out

abbrev pub plain : Prefix → String
plain p = "10.0.0.0/24"

abbrev pub grpc : GrpcServer table idp netip plain
grpc = record { controller = server; cache = []; audience = "zeronet"; prefix = network }

abbrev pub request : LoginPeerRequest
request = record {
  machine_id = machine;
  public_key = "new key";
  hostname = "laptop";
  endpoint = "1.2.3.4:5000";
  access_token = "token";
}

abbrev pub grpc_after : GrpcServer table idp netip plain
grpc_after = record grpc {
  controller = record server {
    db =
        record laptop {
          noise_public_key = "new key";
          endpoint = "1.2.3.4:5000";
          last_login = 9;
          updated_at = 9;
        }
        ∷ [];
  };
}

logged_in :
    login_peer table idp netip plain 9 request grpc ≡ done (grpc_after, ok (proto_config laptop))
unfolding login_peer validate_machine_id is_auth_expired login_known process_peer_login proto_config
logged_in = refl

login_peer-Admitted_example :
    Admitted table 9 machine (proto_config laptop) grpc_after.controller.db
login_peer-Admitted_example =
    login_peer-Admitted table idp netip plain 9 request grpc grpc_after (proto_config laptop)
      logged_in

abbrev roaming : Controller table
roaming = record server { db = record laptop { endpoint = "1.2.3.4:5000"; updated_at = 9 } ∷ [] }

abbrev accepted : Result Status (Unit {0})
accepted = ok tt

announcing : update_endpoint table 9 machine "1.2.3.4:5000" server ≡ (roaming, accepted)
unfolding update_endpoint caller validate_machine_id is_auth_expired
announcing = refl

update_endpoint_lem_example :
    ((peer : Peer) × (accepted ≡ ok tt)
      × MayAnnounce table 9 machine "1.2.3.4:5000" (laptop ∷ []) peer
      × (roaming.db ≡ announced 9 "1.2.3.4:5000" peer.id (laptop ∷ [])))
    ⊎ ((s : Status) × (accepted ≡ err s) × (roaming.db ≡ laptop ∷ []))
update_endpoint_lem_example =
    update_endpoint_lem table 9 machine "1.2.3.4:5000" server roaming accepted announcing

-- The stream of the peer, and the channel that the map holds for it.
abbrev first_stream : Stream
first_stream = record { peer = 1; channel = 0 }

abbrev pub second_stream : Stream
second_stream = record { peer = 1; channel = 1 }

abbrev pub streaming : Controller table
streaming = record server {
  peer_channels = (1, 0) ∷ [];
  channels = record { closed = false; receiving = true; received = [] } ∷ [];
}

abbrev pub reconnected : Controller table
reconnected = record {
  db = record laptop { updated_at = 9 } ∷ [];
  peer_channels = (1, 1) ∷ [];
  channels =
      record { closed = false; receiving = true; received = [] }
      ∷ record { closed = false; receiving = true; received = [] }
      ∷ [];
  cleanups = [];
}

abbrev stranded : Controller table
stranded = record {
  db = record laptop { connected = false; updated_at = 10 } ∷ [];
  peer_channels = [];
  channels =
      record { closed = false; receiving = false; received = [] }
      ∷ record { closed = true; receiving = true; received = [] }
      ∷ [];
  cleanups = [];
}

abbrev pub nobody : Update
nobody = record {
  update_type = init;
  peer_list = some (record { peers = []; count = 0 });
  punch_endpoint = "";
}

pub reconnecting :
    update_stream table 9 machine true streaming ≡ done (reconnected, ok (second_stream, nobody))
unfolding update_stream admit is_auth_expired join greet get_peer_update_channel
    peer_connected_event announce broadcast get_connected_peers load store delete
reconnecting = refl

ending : end_stream table 10 first_stream reconnected ≡ done stranded
unfolding end_stream leave delete_peer_update_channel close peer_disconnected_event announce
    broadcast load delete
ending = refl

end_stream-update_stream_example :
    (closed_at stranded.channels 1 ≡ true) × (load 1 stranded.peer_channels ≡ none)
end_stream-update_stream_example =
    end_stream-update_stream table 9 10 machine first_stream second_stream nobody streaming
      reconnected stranded reconnecting refl ending

next_ip : allocate_peer_ip netip table (laptop ∷ []) network ≡ some "411"
unfolding allocate_peer_ip get_allocated_ips parse_all next_free next
next_ip = refl

next_ip-valid : allocate_peer_ip netip table (laptop ∷ []) network ≢ some (unary_text invalid)
next_ip-valid e =
    false≢true ((eq_iff "411" (unary_text invalid)).1 (some-injective _ _ (sym next_ip ∙ e)))

laptop-DistinctRows : DistinctRows (laptop ∷ [])
unfolding DistinctRows
laptop-DistinctRows = ((tt, tt), (tt, tt))

login_peer-DistinctRows_example : DistinctRows grpc_after.controller.db
login_peer-DistinctRows_example =
    login_peer-DistinctRows table idp netip plain 9 request grpc grpc_after
      (ok (proto_config laptop)) logged_in next_ip-valid laptop-DistinctRows

abbrev pub emptied : Controller table
emptied = record server { db = []; cleanups = 1 ∷ [] }

pub deleted : delete_peer table 9 1 server ≡ done (emptied, no_failure)
unfolding delete_peer logout_peer peer_forced_logout_event load
deleted = refl

abbrev quiet : Channel
quiet = record { closed = false; receiving = true; received = [] }

abbrev punched : Controller table
punched = record streaming {
  channels = record quiet { received = punch_message "5.6.7.8:5000" ∷ [] } ∷ [];
}

punching : punch table 9 machine 1 "5.6.7.8:5000" streaming ≡ done (punched, accepted)
unfolding punch caller validate_machine_id is_auth_expired peer_punch_request send load
punching = refl

laptop_channel : load 1 streaming.peer_channels ≡ some 0
unfolding load
laptop_channel = refl

punch-receives_example :
    ((peer : Peer) × MayAnnounce table 9 machine "5.6.7.8:5000" (laptop ∷ []) peer)
    × (channel_at punched.channels 0
        ≡ some (record quiet { received = punch_message "5.6.7.8:5000" ∷ [] }))
punch-receives_example =
    punch-receives table 9 machine 1 "5.6.7.8:5000" streaming punched laptop 0 quiet refl
      laptop_channel refl punching
