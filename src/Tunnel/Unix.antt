-- ===== src/Tunnel/Unix.antt =====
-- node/tun/tun_nix.go, with the constant of node/tun/tun.go: the tunnel on Linux and macOS, whose address
-- is set by commands.
use zeronet.Prelude.{ℕ, String, List, [], ◌∷◌, ◌++◌, Option, none, some}
use zeronet.Go.{Outcome, done, panics, exits, Result, ok, err}
use Prim.Native.String.{◌++◌ as join}

pub data Goos : Type 0 where
  linux darwin : Goos
  other : String → Goos

-- The parts of a prefix as net/netip prints them: the address, and the network.
pub record PrefixText : Type 0 where
  pub addr : String
  pub masked : String

abbrev pub Command : Type 0
Command = List String

-- What a command comes to, after those that have been run before it; `none` is no error.
abbrev pub Shell : Type 0
Shell = List Command → Command → Option String

pub record NixTun : Type 0 where
  pub name : String

-- `water.New` makes an interface with a name, or fails.
unfoldable pub new_tun : Result String String → Result String NixTun
new_tun (err e) = err e
new_tun (ok name) = ok (record { name = name })

unfoldable pub mtu : ℕ
mtu = 1300

-- An error of `ConfigureIPAddress`: the text in front, and the error of the command.
pub data ConfigureError : Type 0 where
  ip_link ip_addr : String → ConfigureError
  ifconfig : (name error : String) → ConfigureError
  no_support : String → ConfigureError

abbrev pub link_mtu : NixTun → Command
link_mtu n = "/sbin/ip" ∷ "link" ∷ "set" ∷ "dev" ∷ n.name ∷ "mtu" ∷ "1400" ∷ []

abbrev pub addr_add : NixTun → PrefixText → Command
addr_add n p = "/sbin/ip" ∷ "addr" ∷ "add" ∷ join p.addr "/32" ∷ "dev" ∷ n.name ∷ []

abbrev pub link_up : NixTun → Command
link_up n = "/sbin/ip" ∷ "link" ∷ "set" ∷ "dev" ∷ n.name ∷ "up" ∷ []

abbrev pub route_add : PrefixText → Command
route_add p = "/sbin/ip" ∷ "route" ∷ "add" ∷ p.masked ∷ "via" ∷ p.addr ∷ []

abbrev pub interface_up : NixTun → PrefixText → Command
interface_up n p = "/sbin/ifconfig" ∷ n.name ∷ "mtu" ∷ "1400" ∷ p.addr ∷ p.addr ∷ "up" ∷ []

abbrev pub net_route : PrefixText → Command
net_route p = "/sbin/route" ∷ "-n" ∷ "add" ∷ "-net" ∷ p.masked ∷ p.addr ∷ []

-- The commands that have been run, in their order, and the error that is returned. A route that cannot
-- be added ends the process.
unfoldable pub configure_ip_address :
    Goos
    → Shell
    → NixTun
    → PrefixText
    → List Command
    → Outcome (List Command × Option ConfigureError)
configure_ip_address linux sh n p l = elim (sh l (link_mtu n)) [
  | some e ↦ done (l ++ link_mtu n ∷ [], some (ip_link e))
  | none ↦
      let l = l ++ link_mtu n ∷ [] in
      elim (sh l (addr_add n p)) [
        | some e ↦ done (l ++ addr_add n p ∷ [], some (ip_addr e))
        | none ↦
            let l = l ++ addr_add n p ∷ [] in
            elim (sh l (link_up n)) [
              | some e ↦ done (l ++ link_up n ∷ [], some (ip_link e))
              | none ↦
                  let l = l ++ link_up n ∷ [] in
                  elim (sh l (route_add p)) [
                    | some e ↦ panics exits
                    | none ↦ done (l ++ route_add p ∷ [], none)
                  ]
            ]
      ]
]
configure_ip_address darwin sh n p l = elim (sh l (interface_up n p)) [
  | some e ↦ done (l ++ interface_up n p ∷ [], some (ifconfig n.name e))
  | none ↦
      let l = l ++ interface_up n p ∷ [] in
      elim (sh l (net_route p)) [
        | some e ↦ panics exits
        | none ↦ done (l ++ net_route p ∷ [], none)
      ]
]
configure_ip_address (other os) sh n p l = done (l, some (no_support os))
