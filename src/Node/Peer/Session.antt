-- ===== src/Node/Peer/Session.antt =====
-- Two peers, one on each side: what one seals the other opens.
use mathlib.Core.List.{append_assoc}
use mathlib.Core.Path.{subst}
use zeronet.Prelude.{
  ℕ, [], ◌∷◌, some, none, List, ◌≤◌, length, ◌≡◌, ◌<◌, ◌^◌, ◌++◌, if◌then◌else◌, ltb, take, arith,
  take-append, ◌∙◌, length-append, ap, Option, refl,
}
use zeronet.Go.{done}
use zeronet.Header.{
  Header, parse, be_bytes, header_len, header_version, header_padding, data_type, stamped,
}
use zeronet.Header.Encoding.{wire, encode_lem}
use zeronet.Header.RoundTrip.{parse-wire}
use zeronet.Node.Noise.{Noise, Agreement}
use zeronet.Node.Buffer.{InboundBuffer, OutboundBuffer, UdpAddr}
use zeronet.Node.Peer.State.{
  Peer, Env, tun_write, put_outbound, write_to_udp, update_endpoint, put_inbound, timer_keepalive,
  timer_rx_timeout, emit,
}
use zeronet.Node.Peer.Handshake.{packet_header, message_of}
use zeronet.Node.Peer.Data.{seal_outbound, open_inbound, deliver}

pub packet_header_lem :
    (env : Env) (b : OutboundBuffer) (t counter : ℕ)
    → header_len ≤ length b.out.backing
    → packet_header env b t counter ≡ wire header_version t env.node_id counter header_padding
unfolding packet_header
packet_header_lem env b t counter le =
    let (s, e, f, g) = (encode_lem b.header b.out t env.node_id counter).2 le in rw e f

-- The message of a datagram whose header was written by a peer.
pub message_of-wire :
    (r : InboundBuffer) (t index counter : ℕ) (body rest : List ℕ)
    → let h = wire header_version t index counter header_padding in
      r.raw ≡ (h ++ body) ++ rest → r.size ≡ length (h ++ body) → message_of r ≡ done body
unfolding message_of be_bytes
message_of-wire r t index counter body rest e s =
    rw (e, s) (ground (arith, take-append body rest, length-append body rest))

module _ {N : Noise} where
  -- With a cipher and room for the header, a packet that fits its buffer is sealed behind a header
  -- that names this node and the nonce, and is sent.
  seal_outbound_lem :
      (env : Env) (b : OutboundBuffer) (p : Peer N) (tx tx' : N.CipherState) (packet : List ℕ)
      → p.tx ≡ some tx
      → b.size ≤ length b.packet
      → N.encrypt tx (packet_header env b data_type (N.nonce tx)) [] (take b.size b.packet)
        ≡ (some packet, tx')
      → seal_outbound env b p
        ≡ done (record p {
          tx = some tx';
          keepalive = some timer_keepalive;
          trace = put_outbound ∷ write_to_udp packet p.raddr ∷ p.trace;
        })
  unfolding seal_outbound
  seal_outbound_lem env b p tx tx' packet e₁ fits e₂ = ground arith

  open_inbound_lem :
      (r : InboundBuffer) (q : Peer N) (rx : N.CipherState) (body plain : List ℕ) (a : UdpAddr)
      → q.rx ≡ some rx
      → message_of r ≡ done body
      → r.raddr ≡ some a
      → (N.decrypt (N.set_nonce rx r.header.counter) [] [] body).0 ≡ some plain
      → (q' : Peer N) × (open_inbound r q ≡ done q')
        × (q'.rx ≡ some (N.decrypt (N.set_nonce rx r.header.counter) [] [] body).1)
        × (q'.raddr ≡ (update_endpoint a q).raddr)
        × (q'.trace ≡ (
            if ltb 0 (length plain)
            then put_inbound ∷ tun_write plain ∷ q.trace
            else put_inbound ∷ q.trace))
  unfolding open_inbound deliver update_endpoint
  open_inbound_lem r q rx body plain a e₁ e₂ e₃ e₄ =
      let rest : Peer N = record q {
        rx = some (N.decrypt (N.set_nonce rx r.header.counter) [] [] body).1;
        received_packet = some timer_rx_timeout;
      } in
      let tunnelled = if ltb 0 (length plain) then emit (tun_write plain) rest else rest in
      (
        emit put_inbound (update_endpoint a tunnelled),
        ground arith,
        ground arith,
        ground arith,
        ground arith,
      )

module _ {N : Noise} (A : Agreement N) where
  -- A packet that one side seals is opened by the other, from the datagram that carried it and
  -- whatever the buffer holds behind it: the header names the sender and the nonce, the clear text
  -- goes to the tunnel unless it is empty, and the ciphers still fit.
  pub open_inbound-seal_outbound :
      (env : Env) (b : OutboundBuffer) (p q : Peer N) (tx tx' rx : N.CipherState)
      (packet rest : List ℕ) (r : InboundBuffer) (h : Header) (a : UdpAddr)
      → header_len ≤ length b.out.backing
      → b.size ≤ length b.packet
      → env.node_id < 2 ^ 32
      → p.tx ≡ some tx
      → q.rx ≡ some rx
      → A.Paired tx rx
      → N.encrypt tx (packet_header env b data_type (N.nonce tx)) [] (take b.size b.packet)
        ≡ (some packet, tx')
      → r.raw ≡ packet ++ rest
      → r.size ≡ length packet
      → parse (some h) r.raw ≡ (some r.header, none)
      → r.raddr ≡ some a
      → (p' q' : Peer N) × (seal_outbound env b p ≡ done p')
        × (p'.trace ≡ put_outbound ∷ write_to_udp packet p.raddr ∷ p.trace)
        × (open_inbound r q ≡ done q')
        × (r.header ≡ stamped data_type env.node_id (N.nonce tx))
        × (q'.raddr ≡ (update_endpoint a q).raddr)
        × (q'.trace ≡ (
            if ltb 0 (length (take b.size b.packet))
            then put_inbound ∷ tun_write (take b.size b.packet) ∷ q.trace
            else put_inbound ∷ q.trace))
        × (rx' : N.CipherState) × (p'.tx ≡ some tx')
        × (q'.rx ≡ some rx')
        × A.Paired tx' rx'
  open_inbound-seal_outbound env b p q tx tx' rx packet rest r h a le fits id e₁ e₂ pair e₃ e₄ e₅ e₆
        e₇ =
      let n : ℕ = N.nonce tx in
      let head : packet_header env b data_type n
          ≡ wire header_version data_type env.node_id n header_padding =
        packet_header_lem env b data_type n le in
      let (body, split, opens) =
        A.seal-open tx rx tx' (packet_header env b data_type n) (take b.size b.packet) packet pair
          e₃ in
      let whole : packet ≡ wire header_version data_type env.node_id n header_padding ++ body =
        split ∙ ap (λ (x : List ℕ). x ++ body) head in
      let raw : r.raw
          ≡ (wire header_version data_type env.node_id n header_padding ++ body) ++ rest =
        e₄ ∙ ap (λ (x : List ℕ). x ++ rest) whole in
      let read : r.header ≡ stamped data_type env.node_id n = ground (
        arith,
        parse-wire h data_type env.node_id n (body ++ rest) id (A.nonce-lt tx),
        append_assoc (wire header_version data_type env.node_id n header_padding) body rest,
      ) in
      let message : message_of r ≡ done body =
        message_of-wire r data_type env.node_id n body rest raw (e₅ ∙ ap length whole) in
      let counter : r.header.counter ≡ n = ap (λ (x : Header). x.counter) read in
      let (q', f₁, f₂, f₃, f₄) =
        open_inbound_lem r q rx body (take b.size b.packet) a e₂ message e₇ (rw counter opens) in
      (
        _,
        q',
        seal_outbound_lem env b p tx tx' packet e₁ fits e₃,
        refl,
        f₁,
        read,
        f₃,
        f₄,
        _,
        refl,
        f₂,
        subst
            (λ (c : N.CipherState).
              A.Paired c (N.decrypt (N.set_nonce rx r.header.counter) [] [] body).1)
            (ap (λ (x : Option (List ℕ) × N.CipherState). x.1) e₃)
            (A.open-Paired _ rx r.header.counter body (A.seal-Paired tx rx _ _ pair)),
      )
