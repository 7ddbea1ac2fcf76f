-- ===== src/Node/Packets.antt =====
-- node/node.go and node/stun.go: what becomes of the packets that the node reads, and of the answers
-- of STUN.
use zeronet.Prelude.{
  ℕ, List, Bool, false, Option, none, some, if◌then◌else◌, not, ◌==◌, ◌/◌, ◌-◌, ◌^◌, str_eq, ◌||◌,
}
use zeronet.Go.{Outcome, done}
use zeronet.Go.SyncMap.{load, nat_key}
use zeronet.Addr.{v4, Prefix, addr_eq}
use zeronet.Header.{Header, parse, handshake_type, data_type}
use zeronet.Node.Noise.{Noise}
use zeronet.Node.Net.{Net}
use zeronet.Node.Buffer.{InboundBuffer, OutboundBuffer}
use zeronet.Node.Peer.State.{Peer}
use zeronet.Node.Peer.Lifecycle.{handshake_packet, inbound_packet, outbound_packet}
use zeronet.Node.State.{Node, NodeEffect, call, does, env_of, addr_key}

-- `node.ip.Masked().Contains(dst)`, at an address of IPv4.
unfoldable pub in_network : Prefix → ℕ → Bool
in_network p dst = elim p.addr [
  | v4 n ↦ n / 2 ^ (32 - p.bits) == dst / 2 ^ (32 - p.bits)
  | _ ↦ false
]

-- The receiver of a parsed packet, with its header as it was read.
abbrev pub header_of : Option Header → Header → Header
header_of none h = h
header_of (some h) old = h

module _ {N : Noise} where
  abbrev pub put_inbound_back : Node N → Node N
  put_inbound_back n = does NodeEffect.put_inbound n

  abbrev pub put_outbound_back : Node N → Node N
  put_outbound_back n = does NodeEffect.put_outbound n

  -- The peer that a packet names is found and has the packet, or the buffer is put back.
  abbrev pub hand_over :
      ℕ → (InboundBuffer → Peer N → Outcome (Peer N)) → InboundBuffer → Node N → Outcome (Node N)
  hand_over sender f b n = elim (load sender n.by_id) [
    | none ↦ done (put_inbound_back n)
    | some k ↦ call k (f (record b { peer = some sender })) n
  ]

  -- A packet with a header, by its type.
  unfoldable pub dispatch : InboundBuffer → Node N → Outcome (Node N)
  dispatch b n =
      if b.header.type == handshake_type
      then hand_over b.header.sender_index handshake_packet b n
      else if b.header.type == data_type
      then hand_over b.header.sender_index (λ b p. done (inbound_packet b p)) b n
      else done (put_inbound_back n)

  -- A datagram for the server of STUN, which is found by its name.
  unfoldable pub send_stun_request : Bool → Node N → Option (Node N)
  send_stun_request resolves n = if resolves then some (does NodeEffect.stun_request n) else none

module _ {N : Noise} (W : Net) where
  -- The address is new: it is stored, and the controller is told.
  unfoldable pub handle_stun_message : List ℕ → Node N → Node N
  handle_stun_message message n = elim (W.decode_stun_message message) [
    | none ↦ n
    | some a ↦
        if str_eq n.discovered_endpoint a
        then n
        else does (NodeEffect.update_endpoint n.machine_id a) (record n { discovered_endpoint = a })
  ]

  unfoldable pub on_udp_packet : InboundBuffer → Node N → Outcome (Node N)
  on_udp_packet b n =
      let (h, e) = parse (some b.header) b.raw in
      let r = record b { header = header_of h b.header } in
      elim e [
        | none ↦ dispatch r n
        | some e ↦
            done (
              put_inbound_back (if W.is_stun_message b.raw then handle_stun_message b.raw n else n))
      ]

  unfoldable pub on_tunnel_packet : ℕ → OutboundBuffer → Node N → Outcome (Node N)
  on_tunnel_packet seed b n = elim (W.ip_destination b.packet) [
    | none ↦ done (put_outbound_back n)
    | some dst ↦
        if addr_eq n.ip.addr (v4 dst) || not (in_network n.ip dst)
        then done (put_outbound_back n)
        else elim (load (v4 dst) n.by_ip) [
          | none ↦ done (put_outbound_back n)
          | some k ↦ call k (outbound_packet (env_of n) seed b) n
        ]
  ]
