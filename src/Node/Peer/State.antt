-- ===== src/Node/Peer/State.antt =====
-- node/peer.go: the state of a peer, and the small methods that every other one uses.
use zeronet.Addr.{Addr}
use zeronet.Prelude.{
  ℕ, List, [], ◌∷◌, Bool, false, Option, none, some, not, ◌||◌, if◌then◌else◌, ◌==◌, ◌≡◌, arith,
  String,
}
use zeronet.Go.{Outcome, done, panics, nil_pointer, ◌>>=◌}
use zeronet.Node.Noise.{Noise, DhKey, create_handshake}
use zeronet.Node.Buffer.{UdpAddr, InboundBuffer, OutboundBuffer}

abbrev pub count_handshake_retries : ℕ
count_handshake_retries = 10

abbrev pub inbound_channel_size : ℕ
inbound_channel_size = 1024

abbrev pub outbound_channel_size : ℕ
outbound_channel_size = 1024

abbrev pub handshake_channel_size : ℕ
handshake_channel_size = 3

-- Times in seconds.
abbrev pub timer_rx_timeout : ℕ
timer_rx_timeout = 15

abbrev pub timer_keepalive : ℕ
timer_keepalive = 10

-- What a peer does to the node around it: sockets, the tunnel, the buffer pools, the controller.
pub data Effect : Type 0 where
  write_to_udp : List ℕ → UdpAddr → Effect
  tun_write : List ℕ → Effect
  request_punch : ℕ → Effect
  get_outbound put_outbound put_inbound : Effect
  inbound_full outbound_full : Effect

-- `pending_locked` is the writer's side of `pendingLock`. A timer is armed with its seconds. `none`
-- in a queue is the nil that ends the routine that reads it. A packet that a routine has taken from
-- its queue and not yet processed, since the lock is held, is in `inbound_held` or `outbound_held`.
pub record Peer (N : Noise) : Type 0 where
  pub id : ℕ
  pub ip : Addr
  pub hostname : String
  pub pubkey : List ℕ
  pub raddr : UdpAddr
  pub hs : Option N.HandshakeState
  pub rx : Option N.CipherState
  pub tx : Option N.CipherState
  pub state : ℕ
  pub initiator : Bool
  pub handshake_sent : Option ℕ
  pub received_packet : Option ℕ
  pub keepalive : Option ℕ
  pub handshake_retries : ℕ
  pub inbound : List (Option InboundBuffer)
  pub outbound : List (Option OutboundBuffer)
  pub handshakes : List (Option InboundBuffer)
  pub inbound_held : Option InboundBuffer
  pub outbound_held : Option OutboundBuffer
  pub routines : Bool
  pub running : Bool
  pub in_transport : Bool
  pub pending_locked : Bool
  pub trace : List Effect

-- What a peer reads of its node.
pub record Env : Type 0 where
  pub node_id : ℕ
  pub key_pair : DhKey

-- One `PutInboundBuffer` for each entry; it follows the pointer that it is given.
unfoldable pub flush_inbound : List (Option InboundBuffer) → List Effect → Outcome (List Effect)
flush_inbound [] t = done t
flush_inbound (none ∷ q) t = panics nil_pointer
flush_inbound (some b ∷ q) t = flush_inbound q (put_inbound ∷ t)

unfoldable pub flush_outbound : List (Option OutboundBuffer) → List Effect → Outcome (List Effect)
flush_outbound [] t = done t
flush_outbound (none ∷ q) t = panics nil_pointer
flush_outbound (some b ∷ q) t = flush_outbound q (put_outbound ∷ t)

module _ {N : Noise} where
  abbrev pub emit : Effect → Peer N → Peer N
  emit e p = record p { trace = e ∷ p.trace }

  unfoldable pub init_handshake : Env → Bool → ℕ → Peer N → Option (Peer N)
  unfolding create_handshake
  init_handshake env initiator seed p =
      elim (create_handshake N initiator env.key_pair p.pubkey seed) [
        | none ↦ none
        | some hs ↦ some (record p { initiator = initiator; hs = some hs })
      ]

  unfoldable pub flush_queues : Peer N → Outcome (Peer N)
  unfolding flush_inbound flush_outbound
  flush_queues p = do
    t₁ ← flush_inbound p.handshakes p.trace
    t₂ ← flush_outbound p.outbound t₁
    t₃ ← flush_inbound p.inbound t₂
    done (record p { handshakes = []; outbound = []; inbound = []; trace = t₃ })

  -- The peer is not running while it is reset, and runs again afterwards if it did before. The timer
  -- `handshakeSent`, `pendingLock` and packets already taken from the queues are left alone.
  unfoldable pub reset_state : Peer N → Outcome (Peer N)
  unfolding flush_queues
  reset_state p = do
    let was_running = p.running
    q ← flush_queues (record p {
      running = false;
      handshake_retries = 0;
      received_packet = none;
      keepalive = none;
    })
    done (record q {
      hs = none;
      rx = none;
      tx = none;
      initiator = false;
      state = 0;
      in_transport = false;
      running = was_running;
    })

  unfoldable pub update_endpoint : UdpAddr → Peer N → Peer N
  update_endpoint addr p =
      if not (p.raddr.ip == addr.ip) || not (p.raddr.port == addr.port)
      then record p { raddr = addr }
      else p

  pub update_endpoint_lem :
      (addr : UdpAddr) (p : Peer N)
      → update_endpoint addr p ≡ record p { raddr = (update_endpoint addr p).raddr }
  unfolding update_endpoint
  update_endpoint_lem addr p = ground arith
