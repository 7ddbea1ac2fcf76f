-- ===== src/Node/Peer/Tests.antt =====
-- A library with no secrets, to run the peer with: a handshake state is the number of messages so
-- far, a cipher its next nonce.
use zeronet.Addr.{v4}
use zeronet.Node.Peer.Session.{open_inbound-seal_outbound}
use zeronet.Node.Peer.Crashes.{stop_lem, takes_handshake_panics}
use zeronet.Node.Peer.Invariant.Events.{step-Inv}
use zeronet.Node.Peer.Handshake.{
  lock_pending, handshake, handshake_first, complete, handshake_p2, finish_responder, respond,
  unlock_pending, message_of, try_send_handshake, packet_header, send_handshake, handshake_p1,
}
use zeronet.Header.{
  stamped, handshake_type, none_type, encode, encode_to_slice, data_type, parse, be_value,
}
use mathlib.Core.Option
use zeronet.Prelude.{
  ℕ, [], ◌∷◌, some, none, List, ◌≡◌, refl, arith, suc, ◌++◌, ◌%◌, ◌^◌, is_some, true,
}
use zeronet.Go.{done, panics, unlock_of_unlocked, wrong_counter}
use zeronet.Node.Noise.{Noise, IkPattern, Agreement, Turn, create_handshake}
use zeronet.Node.Buffer.{InboundBuffer, OutboundBuffer, UdpAddr, zeros, new_outbound_buffer}
use zeronet.Node.Peer.State.{
  Peer, Env, put_inbound, put_outbound, write_to_udp, get_outbound, init_handshake, update_endpoint,
}
use zeronet.Node.Peer.Lifecycle.{
  Event, run, stop, step, new_peer, starts, start, handshake_arrives, packet_leaves,
  takes_handshake, handshake_packet, take_handshake, outbound_packet, inbound_packet, data_arrives,
}
use zeronet.Node.Peer.Invariant.{Inv}
use zeronet.Node.Peer.Runs.{run-new_peer-Inv}

abbrev pub toy : Noise
toy = record {
  HandshakeState = ℕ;
  CipherState = ℕ;
  new_handshake_state = λ initiator k rs seed. some seed;
  write_message = λ hs out payload. some (out ++ hs ∷ [], some 0, some 0, suc hs);
  read_message = λ hs message. some ([], some 0, some 0, suc hs);
  encrypt = λ c out ad plaintext. (some (out ++ plaintext), suc c);
  decrypt = λ c out ad ciphertext. (some (out ++ ciphertext), suc c);
  nonce = λ c. c % 2 ^ 64;
  set_nonce = λ c n. n;
}

pub toy-sent :
    (hs : ℕ) (m : List ℕ) (w : Turn toy)
    → toy.read_message hs m ≡ some w
    → (is_some w.1 ≡ true) × (is_some w.2 ≡ true)
toy-sent hs m w e = ground arith

pub toy-ready :
    (hs : ℕ) (out : List ℕ) (w : Turn toy)
    → toy.write_message hs out [] ≡ some w
    → (is_some w.1 ≡ true) × (is_some w.2 ≡ true)
toy-ready hs out w e = ground arith

abbrev pub toy_pattern : IkPattern toy
toy_pattern = record {
  Sent = λ hs. Unit {0};
  Ready = λ hs. Unit {0};
  new-write = λ k rs seed out hs w e f. tt;
  sent-read = λ hs m w s e. toy-sent hs m w e;
  new-read = λ k seed hs m w e f. tt;
  ready-write = λ hs out w r e. toy-ready hs out w e;
}

pub toy-seal :
    (tx tx' : ℕ) (out plain sealed : List ℕ)
    → toy.encrypt tx out [] plain ≡ (some sealed, tx')
    → sealed ≡ out ++ plain
toy-seal tx tx' out plain sealed e = ground arith

abbrev pub toy_agreement : Agreement toy
toy_agreement = record {
  Paired = λ tx rx. Unit {0};
  seal-open = λ tx rx tx' out plain sealed p e. (plain, toy-seal tx tx' out plain sealed e, refl);
  seal-Paired = λ tx rx out plain p. tt;
  open-Paired = λ tx rx n body p. tt;
  nonce-lt = λ tx. omega arith;
}

abbrev pub env : Env
env = record { node_id = 7; key_pair = record { public = 1 ∷ []; private = 2 ∷ [] } }

abbrev pub here : UdpAddr
here = record { ip = 10; port = 20 }

abbrev pub fresh : Peer toy
fresh = new_peer 3 (v4 100) "desk" (4 ∷ []) here

-- A datagram with a handshake message.
abbrev pub message : ℕ → InboundBuffer
message counter = record {
  raw = zeros 20;
  packet = [];
  raddr = some here;
  size = 20;
  header = stamped handshake_type 3 counter;
  peer = some 3;
}

abbrev pub outgoing : OutboundBuffer
outgoing = record {
  out = record { backing = zeros 16; len = 16 };
  packet = 5 ∷ 6 ∷ [];
  size = 2;
  header = stamped none_type 0 0;
  peer = none;
}

-- The peer is started, answers a handshake, and has a session; or sends one, and waits.
abbrev responder : List Event
responder = starts ∷ handshake_arrives (message 0) ∷ takes_handshake 5 ∷ []

abbrev initiator : List Event
initiator = starts ∷ packet_leaves 5 outgoing ∷ []

abbrev pub connected : Peer toy
connected = record fresh {
  hs = some 7;
  rx = some 0;
  tx = some 0;
  state = 2;
  keepalive = some 15;
  routines = true;
  running = true;
  in_transport = true;
  trace =
      put_inbound
      ∷ put_outbound
      ∷ write_to_udp (1 ∷ 1 ∷ 0 ∷ 0 ∷ 0 ∷ 7 ∷ 0 ∷ 0 ∷ 0 ∷ 0 ∷ 0 ∷ 0 ∷ 0 ∷ 1 ∷ 0xfe ∷ 0xed ∷ 6 ∷ [])
          here
      ∷ get_outbound
      ∷ [];
}

connects : run env responder fresh ≡ done connected
unfolding run step start lock_pending handshake_packet take_handshake handshake handshake_first
    complete handshake_p2 finish_responder init_handshake create_handshake respond update_endpoint
    Option.bind unlock_pending message_of packet_header encode encode_to_slice new_outbound_buffer
connects = refl

abbrev pub waiting : Peer toy
waiting = record fresh {
  hs = some 6;
  state = 1;
  initiator = true;
  handshake_sent = some 3;
  handshake_retries = 1;
  outbound = some outgoing ∷ [];
  routines = true;
  running = true;
  pending_locked = true;
  trace =
      put_outbound
      ∷ write_to_udp (1 ∷ 1 ∷ 0 ∷ 0 ∷ 0 ∷ 7 ∷ 0 ∷ 0 ∷ 0 ∷ 0 ∷ 0 ∷ 0 ∷ 0 ∷ 0 ∷ 0xfe ∷ 0xed ∷ 5 ∷ [])
          here
      ∷ get_outbound
      ∷ [];
}

waits : run env initiator fresh ≡ done waiting
unfolding run step start lock_pending outbound_packet try_send_handshake send_handshake handshake_p1
    init_handshake create_handshake packet_header encode encode_to_slice new_outbound_buffer
waits = refl

pub connected-Inv : Inv toy_pattern connected
connected-Inv =
    run-new_peer-Inv toy_pattern env responder 3 (v4 100) "desk" (4 ∷ []) here connected connects

pub waiting-Inv : Inv toy_pattern waiting
waiting-Inv =
    run-new_peer-Inv toy_pattern env initiator 3 (v4 100) "desk" (4 ∷ []) here waiting waits

step-Inv_example : Inv toy_pattern (record connected { inbound = some (message 3) ∷ [] })
unfolding step inbound_packet
step-Inv_example =
    step-Inv toy_pattern env (data_arrives (message 3)) connected _ connected-Inv refl

stop_lem_example : stop connected ≡ panics unlock_of_unlocked
stop_lem_example =
    (stop_lem toy_pattern connected connected-Inv
        (record { handshakes = tt; outbound = tt; inbound = tt }) refl).0
      refl refl refl

-- Both sides have sent their first message.
crossed : Peer toy
crossed = record waiting { handshakes = some (message 0) ∷ [] }

crossed-Inv : Inv toy_pattern crossed
unfolding crossed
crossed-Inv =
    step-Inv toy_pattern env (handshake_arrives (message 0)) waiting crossed waiting-Inv
      (unfold step handshake_packet in refl)

takes_handshake_panics_example : step env (takes_handshake 9) crossed ≡ panics wrong_counter
unfolding crossed
takes_handshake_panics_example =
    (takes_handshake_panics toy_pattern env 9 (message 0) [] crossed crossed-Inv refl refl refl).1
      refl (omega arith)

-- The two bytes that `outgoing` holds, as they leave a peer with a session, and as they arrive.
abbrev pub carried : List ℕ
carried = 1 ∷ 2 ∷ 0 ∷ 0 ∷ 0 ∷ 7 ∷ 0 ∷ 0 ∷ 0 ∷ 0 ∷ 0 ∷ 0 ∷ 0 ∷ 0 ∷ 0xfe ∷ 0xed ∷ 5 ∷ 6 ∷ []

abbrev pub arriving : InboundBuffer
arriving = record (message 0) {
  raw = carried ++ 0 ∷ 0 ∷ [];
  size = 18;
  header = stamped data_type 7 0;
}

pub arriving_parsed : parse (some (stamped 0 0 0)) arriving.raw ≡ (some arriving.header, none)
unfolding parse be_value
arriving_parsed = refl

pub sealed_carried :
    toy.encrypt 0 (packet_header env outgoing data_type 0) [] (5 ∷ 6 ∷ []) ≡ (some carried, 1)
unfolding packet_header encode encode_to_slice
sealed_carried = refl

open_inbound-seal_outbound_example : arriving.header ≡ stamped data_type 7 0
open_inbound-seal_outbound_example =
    (open_inbound-seal_outbound toy_agreement env outgoing connected connected 0 1 0 carried
      (0 ∷ 0 ∷ []) arriving (stamped 0 0 0) here (omega arith) (omega arith) (omega arith) refl refl
      tt sealed_carried refl refl arriving_parsed refl).5
