-- ===== src/Controller/StreamTests.antt =====
-- Two peers that open their streams, one after the other and at the same time.
use zeronet.Go.SyncMap.{store, delete, load}
use zeronet.Prelude.{◌≡◌, refl, String, true, false, List, [], ◌∷◌, ℕ}
use zeronet.Go.{done}
use zeronet.Controller.Types.{Peer, is_auth_expired}
use zeronet.Controller.Store.Table.{table}
use zeronet.Controller.Channels.{announcement, connect, open_channel, send, get_peer_update_channel}
use zeronet.Controller.Tests.{machine, laptop}
use zeronet.Controller.Grpc.Stream.{admit}
use zeronet.Controller.Grpc.Streams.{
  Server, Call, StreamEvent, calls_in, goes_on, hangs_up, announces, stream_run, stream_step,
  call_in, go_on,
}
use zeronet.Controller.Grpc.Tests.{second_stream, streaming, reconnected, nobody, reconnecting}
use zeronet.Controller.Grpc.Streams.Alone.{serving, goes}
use zeronet.Controller.Grpc.Streams.Opens.{update_stream-opens}
use zeronet.Controller.Grpc.Stream.Opened.{Opened}
use zeronet.Controller.Grpc.Streams.{receives}
use zeronet.Controller.Grpc.Streams.Stuck.{Stuck, stream_run-Stuck}

abbrev other_machine : String
other_machine = "1123456789012345678901234567890123456789012345678901234567890123"

abbrev desktop : Peer
desktop = record laptop { id = 2; machine_id = other_machine; hostname = "desktop"; updated_at = 9 }

abbrev seen : Peer
seen = record laptop { updated_at = 9 }

abbrev idle : Server table
idle = record {
  controller = record {
    db = laptop ∷ desktop ∷ [];
    peer_channels = [];
    channels = [];
    cleanups = [];
  };
  calls = [];
}

abbrev together : List StreamEvent
together =
    calls_in 9 machine
    ∷ calls_in 9 other_machine
    ∷ goes_on 9 0 true
    ∷ goes_on 9 1 true
    ∷ goes_on 9 1 true
    ∷ []

abbrev first : Call
first = record {
  stream = record { peer = 1; channel = 0 };
  place = announces ((2, 1) ∷ (1, 0) ∷ []) (announcement connect seen);
}

abbrev second : Call
second = record {
  stream = record { peer = 2; channel = 1 };
  place = announces ((1, 0) ∷ []) (announcement connect desktop);
}

abbrev waiting : Server table
waiting = record {
  controller = record {
    db = seen ∷ desktop ∷ [];
    peer_channels = (2, 1) ∷ (1, 0) ∷ [];
    channels = open_channel ∷ open_channel ∷ [];
    cleanups = [];
  };
  calls = first ∷ second ∷ [];
}

meet : stream_run table together idle ≡ done waiting
unfolding stream_run stream_step call_in admit is_auth_expired get_peer_update_channel go_on send
    store delete load
meet = refl

stuck : Stuck 0 1 first second waiting
stuck = record {
  apart = λ e. cc;
  first = refl;
  second = refl;
  ahead = record {
    update = announcement connect seen;
    peer = 2;
    later = (1, 0) ∷ [];
    walks = refl;
    other = λ e. cc;
  };
  back = record {
    update = announcement connect desktop;
    peer = 1;
    later = [];
    walks = refl;
    other = λ e. cc;
  };
}

-- The client of the first hangs up, and both calls are tried once more.
abbrev later : List StreamEvent
later = hangs_up 10 0 ∷ goes_on 10 0 true ∷ goes_on 10 1 false ∷ []

still : stream_run table later waiting ≡ done waiting
unfolding stream_run stream_step go_on send
still = refl

stream_run-Stuck_example : Stuck 0 1 first second waiting
stream_run-Stuck_example =
    stream_run-Stuck 0 1 first second together later idle waiting waiting refl meet stuck still

update_stream-opens_example :
    Opened table 9 machine streaming reconnected second_stream nobody
    × ((n : ℕ) × (stream_run table
            (calls_in 9 machine ∷ goes table 9 true (first ∷ []) second_stream n)
            (record { controller = streaming; calls = first ∷ [] })
          ≡ done (serving table 9 true (first ∷ []) second_stream reconnected receives)))
update_stream-opens_example =
    update_stream-opens table 9 (first ∷ []) machine true second_stream nobody streaming reconnected
      reconnecting
