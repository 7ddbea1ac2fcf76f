-- ===== src/Node/Contacts.antt =====
-- What a node knows of the other nodes, forgetting how it is kept: the contact at each id, and how the
-- updates of the controller change it.
pub mod Peers
pub mod Info
pub mod Refinement
pub mod Updates
use zeronet.Prelude.{ℕ, List, [], ◌∷◌, Option, none, some, String, ◌==◌, ltb, if◌then◌else◌}
use zeronet.Go.SyncMap.{load, nat_key}
use zeronet.Addr.{Addr}
use zeronet.Node.Noise.{Noise}
use zeronet.Node.Net.{Net}
use zeronet.Node.Peer.State.{Peer}
use zeronet.Node.State.{Node, peer_at}
use zeronet.Node.Client.{or_invalid}
use zeronet.Controller.Types.{ProtoPeer}
use zeronet.Controller.Channels.{Update, PeerList, init, connect, disconnect, punch, logout}
use mathlib.Core.Option

pub record Contact : Type 0 where
  pub ip : Addr
  pub hostname : String
  pub public_key : List ℕ

abbrev pub Directory : Type 0
Directory = ℕ → Option Contact

module _ {N : Noise} where
  abbrev pub contact_of : Peer N → Contact
  contact_of p = record { ip = p.ip; hostname = p.hostname; public_key = p.pubkey }

  unfoldable pub directory : Node N → Directory
  directory n i = Option.bind (load i n.by_id) λ k. Option.map contact_of (peer_at n.peers k)

abbrev pub or_old : List ℕ → Option (List ℕ) → List ℕ
or_old old none = old
or_old old (some k) = k

unfoldable pub set_contact : ℕ → Option Contact → Directory → Directory
set_contact id c d i = let old = d i in if id == i then c else old

module _ (W : Net) where
  -- A peer that the node is told of for the first time.
  unfoldable pub introduce : ProtoPeer → Option Contact
  introduce info = Option.bind (W.parse_addr info.ip) λ ip.
      Option.bind (W.decode_key info.public_key) λ key.
        Option.map (λ a. record { ip = ip; hostname = info.hostname; public_key = key })
          (W.resolve_udp_addr info.endpoint)

  -- A peer that is known already.
  unfoldable pub revise : ProtoPeer → Contact → Contact
  revise info c = record {
    ip = or_invalid (W.parse_addr info.ip);
    hostname = info.hostname;
    public_key = or_old c.public_key (W.decode_key info.public_key);
  }

  unfoldable pub meet : ProtoPeer → Directory → Directory
  meet info d =
      set_contact info.id
        (elim (d info.id) [ none ↦ introduce info | some c ↦ some (revise info c) ]) d

  unfoldable pub meet_all : List ProtoPeer → Directory → Directory
  meet_all [] d = d
  meet_all (info ∷ rest) d = meet_all rest (set_contact info.id (introduce info) d)

  abbrev pub meet_first : List ProtoPeer → Directory → Directory
  meet_first [] d = d
  meet_first (info ∷ rest) d = meet info d

  -- An update that the node survives has a list of peers, where it is about one.
  abbrev pub meet_list : Option PeerList → Directory → Directory
  meet_list none d = d
  meet_list (some l) d = meet_all l.peers d

  abbrev pub meet_listed : Option PeerList → Directory → Directory
  meet_listed none d = d
  meet_listed (some l) d = if ltb l.count 1 then d else meet_first l.peers d

  unfoldable pub learn : Update → Directory → Directory
  learn u d = elim u.update_type [
    | init ↦ meet_list u.peer_list d
    | connect ↦ meet_listed u.peer_list d
    | disconnect ↦ d
    | punch ↦ d
    | logout ↦ d
  ]

  unfoldable pub learn_all : List Update → Directory → Directory
  learn_all [] d = d
  learn_all (u ∷ us) d = learn_all us (learn u d)
