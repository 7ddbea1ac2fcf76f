-- ===== src/Node/Net.antt =====
-- What the node calls of other packages, a parameter of the model: parsers of net, net/netip and
-- encoding/base64, of golang.org/x/net/ipv4, and of pion/stun.
use zeronet.Prelude.{ℕ, List, String, Bool, Option}
use zeronet.Addr.{Addr, Prefix}
use zeronet.Node.Buffer.{UdpAddr}

-- An error is `none`. `ip_destination` is the field `Dst` of the header that `ipv4.ParseHeader` reads.
pub record Net : Type 0 where
  pub parse_addr : String → Option Addr
  pub parse_prefix : String → Option Prefix
  pub decode_key : String → Option (List ℕ)
  pub encode_key : List ℕ → String
  pub resolve_udp_addr : String → Option UdpAddr
  pub parse_addr_port : String → Option UdpAddr
  pub addr_port_string : UdpAddr → String
  pub ip_destination : List ℕ → Option ℕ
  pub is_stun_message : List ℕ → Bool
  pub decode_stun_message : List ℕ → Option String
