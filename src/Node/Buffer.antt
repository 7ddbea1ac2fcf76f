-- ===== src/Node/Buffer.antt =====
-- node/queue.go: the buffers that carry packets, and what a cleared one holds.
use zeronet.Prelude.{ℕ, zero, suc, List, [], ◌∷◌, Option, none}
use zeronet.Header.{Header, Slice, new_header}

abbrev pub buffer_size : ℕ
buffer_size = 1600

-- A `net.UDPAddr` on a udp4 socket: an IPv4 address, by its number, and a port.
pub record UdpAddr : Type 0 where
  pub ip : ℕ
  pub port : ℕ

-- `peer` is the id of the peer that the buffer was handed to. The field `in` is `raw` here.
pub record InboundBuffer : Type 0 where
  pub raw : List ℕ
  pub packet : List ℕ
  pub raddr : Option UdpAddr
  pub size : ℕ
  pub header : Header
  pub peer : Option ℕ

pub record OutboundBuffer : Type 0 where
  pub out : Slice
  pub packet : List ℕ
  pub size : ℕ
  pub header : Header
  pub peer : Option ℕ

abbrev pub zeros : ℕ → List ℕ
zeros zero = []
zeros (suc n) = 0 ∷ zeros n

-- `clear` of a slice of bytes.
abbrev pub clear : List ℕ → List ℕ
clear [] = []
clear (b ∷ bs) = 0 ∷ clear bs

unfoldable pub new_inbound_buffer : InboundBuffer
unfolding new_header
new_inbound_buffer = record {
  raw = zeros buffer_size;
  packet = zeros buffer_size;
  raddr = none;
  size = 0;
  header = new_header;
  peer = none;
}

unfoldable pub new_outbound_buffer : OutboundBuffer
unfolding new_header
new_outbound_buffer = record {
  out = record { backing = zeros buffer_size; len = buffer_size };
  packet = zeros buffer_size;
  size = 0;
  header = new_header;
  peer = none;
}
