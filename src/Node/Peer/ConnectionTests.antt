-- ===== src/Node/Peer/ConnectionTests.antt =====
-- Two peers of the library with no secrets, that meet.
use zeronet.Prelude.{
  ℕ, ◌≡◌, refl, some, [], ◌∷◌, ◌++◌, true, List, arith, if◌then◌else◌, ltb, length, take,
}
use zeronet.Go.{done}
use zeronet.Addr.{v4}
use zeronet.Header.{parse, be_value, stamped, handshake_type, encode, encode_to_slice}
use zeronet.Node.Noise.{Exchanged}
use zeronet.Node.Buffer.{InboundBuffer, UdpAddr, new_outbound_buffer}
use zeronet.Node.Peer.State.{
  Peer, Env, put_outbound, put_inbound, write_to_udp, get_outbound, update_endpoint, tun_write,
}
use zeronet.Node.Peer.Handshake.{packet_header}
use zeronet.Node.Peer.Lifecycle.{
  new_peer, run, packet_leaves, handshake_arrives, takes_handshake, takes_outbound, transmits,
  data_arrives, takes_inbound, delivers,
}
use zeronet.Node.Peer.Connection.{IsIdle}
use zeronet.Node.Peer.Delivery.{delivers-transmits}
use zeronet.Node.Peer.Agreement.{Carries, Session, establishes}
use zeronet.Node.Peer.Tests.{
  toy, toy_agreement, env, here, message, outgoing, fresh, connected, arriving, carried,
  arriving_parsed, sealed_carried,
}

abbrev started : Peer toy → Peer toy
started p = record p { pending_locked = true; routines = true; running = true }

-- The other side, and where it is.
abbrev there : UdpAddr
there = record { ip = 11; port = 21 }

abbrev far : Env
far = record { node_id = 3; key_pair = record { public = 4 ∷ []; private = 5 ∷ [] } }

abbrev guest : Peer toy
guest = new_peer 7 (v4 101) "laptop" (1 ∷ []) there

abbrev first_bytes : List ℕ
first_bytes = 1 ∷ 1 ∷ 0 ∷ 0 ∷ 0 ∷ 7 ∷ 0 ∷ 0 ∷ 0 ∷ 0 ∷ 0 ∷ 0 ∷ 0 ∷ 0 ∷ 0xfe ∷ 0xed ∷ []

abbrev second_bytes : List ℕ
second_bytes = 1 ∷ 1 ∷ 0 ∷ 0 ∷ 0 ∷ 3 ∷ 0 ∷ 0 ∷ 0 ∷ 0 ∷ 0 ∷ 0 ∷ 0 ∷ 1 ∷ 0xfe ∷ 0xed ∷ []

first_header : packet_header env new_outbound_buffer handshake_type 0 ≡ first_bytes
unfolding packet_header new_outbound_buffer encode encode_to_slice
first_header = refl

second_header : packet_header far new_outbound_buffer handshake_type 1 ≡ second_bytes
unfolding packet_header new_outbound_buffer encode encode_to_slice
second_header = refl

abbrev exchanged :
    Exchanged toy_agreement 5 6
      (packet_header env new_outbound_buffer handshake_type 0)
      (packet_header far new_outbound_buffer handshake_type 1)
exchanged = record {
  asks = 5 ∷ [];
  answers = 7 ∷ [];
  asked = (packet_header env new_outbound_buffer handshake_type 0 ++ 5 ∷ [], some 0, some 0, 6);
  heard = ([], some 0, some 0, 7);
  replied = (packet_header far new_outbound_buffer handshake_type 1 ++ 7 ∷ [], some 0, some 0, 8);
  learnt = ([], some 0, some 0, 7);
  first = (0, 0);
  second = (0, 0);
  asking = refl;
  hearing = refl;
  replying = refl;
  learning = refl;
  ask_bytes = refl;
  answer_bytes = refl;
  initiator_sends = refl;
  responder_receives = refl;
  responder_sends = refl;
  initiator_receives = refl;
  first_paired = tt;
  second_paired = tt;
}

abbrev asked : InboundBuffer
asked = record (message 0) {
  raw = first_bytes ++ 5 ∷ 0 ∷ [];
  size = 17;
  header = stamped handshake_type 7 0;
}

abbrev replied : InboundBuffer
replied = record (message 1) {
  raw = second_bytes ++ 7 ∷ [];
  size = 17;
  header = stamped handshake_type 3 1;
}

asked-Carries :
    Carries asked (packet_header env new_outbound_buffer handshake_type 0 ++ 5 ∷ []) here
unfolding parse be_value
asked-Carries = rw first_header (record {
  rest = 0 ∷ [];
  was = stamped 0 0 0;
  raw = refl;
  size = refl;
  parsed = refl;
  raddr = refl;
})

replied-Carries :
    Carries replied (packet_header far new_outbound_buffer handshake_type 1 ++ 7 ∷ []) here
unfolding parse be_value
replied-Carries = rw second_header (record {
  rest = [];
  was = stamped 0 0 0;
  raw = refl;
  size = refl;
  parsed = refl;
  raddr = refl;
})

fresh-IsIdle : IsIdle (started fresh)
fresh-IsIdle = record {
  running = refl;
  routines = refl;
  state = refl;
  initiator = refl;
  transport = refl;
  locked = refl;
  handshakes = refl;
  outbound = refl;
}

guest-IsIdle : IsIdle (started guest)
guest-IsIdle = record {
  running = refl;
  routines = refl;
  state = refl;
  initiator = refl;
  transport = refl;
  locked = refl;
  handshakes = refl;
  outbound = refl;
}

establishes_example :
    (q q' q'' : Peer toy) × (run env (packet_leaves 5 outgoing ∷ []) (started fresh) ≡ done q)
    × (q.trace ≡ put_outbound ∷ write_to_udp exchanged.asked.0 here ∷ get_outbound ∷ [])
    × (run far (handshake_arrives asked ∷ takes_handshake 6 ∷ []) (started guest) ≡ done q')
    × (q'.trace
        ≡ put_inbound
          ∷ put_outbound
          ∷ write_to_udp exchanged.replied.0 (update_endpoint here (started guest)).raddr
          ∷ get_outbound
          ∷ [])
    × (run env (handshake_arrives replied ∷ takes_handshake 9 ∷ []) q ≡ done q'')
    × Session toy_agreement q'' q' outgoing
establishes_example =
    establishes toy_agreement env far 5 6 9 outgoing (started fresh) (started guest) 5 6 asked
      replied here here fresh-IsIdle guest-IsIdle (omega arith) (omega arith) refl refl exchanged
      asked-Carries replied-Carries

-- The session, with the packet that waits.
abbrev sending : Peer toy
sending = record connected { outbound = some outgoing ∷ [] }

abbrev session : Session toy_agreement sending connected outgoing
session = record {
  ciphers_up = (0, 0);
  ciphers_down = (0, 0);
  initiator = record {
    running = refl;
    state = refl;
    transport = refl;
    unlocked = refl;
    retries = refl;
    timer = refl;
    tx = refl;
    rx = refl;
  };
  responder = record {
    running = refl;
    state = refl;
    transport = refl;
    unlocked = refl;
    retries = refl;
    timer = refl;
    tx = refl;
    rx = refl;
  };
  up_paired = tt;
  down_paired = tt;
  waits = refl;
}

arriving-Carries : Carries arriving carried here
arriving-Carries = record {
  rest = 0 ∷ 0 ∷ [];
  was = stamped 0 0 0;
  raw = refl;
  size = refl;
  parsed = arriving_parsed;
  raddr = refl;
}

delivers-transmits_example :
    (p' q' : Peer toy) × (run env (takes_outbound ∷ transmits ∷ []) sending ≡ done p')
    × (p'.outbound ≡ [])
    × (p'.trace ≡ put_outbound ∷ write_to_udp carried here ∷ sending.trace)
    × (run far (data_arrives arriving ∷ takes_inbound ∷ delivers ∷ []) connected ≡ done q')
    × (q'.trace ≡ (
        if ltb 0 (length (take 2 outgoing.packet))
        then put_inbound ∷ tun_write (take 2 outgoing.packet) ∷ connected.trace
        else put_inbound ∷ connected.trace))
delivers-transmits_example =
    delivers-transmits toy_agreement env far outgoing sending connected 1 carried arriving here
      session refl refl refl refl refl (omega arith) (omega arith) (omega arith) sealed_carried
      arriving-Carries
