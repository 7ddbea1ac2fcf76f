-- ===== src/System/Announcement.antt =====
-- What a node makes of the update by which the controller announces a peer.
use zeronet.Prelude.{ℕ, ◌≡◌, ◌∙◌, refl, ap, some, none, arith}
use zeronet.Go.{done, panics, failed}
use zeronet.Go.SyncMap.{load, nat_key}
use zeronet.Node.Noise.{Noise, IkPattern}
use zeronet.Node.Net.{Net}
use zeronet.Node.State.{Node}
use zeronet.Node.Client.{handle_update, handle_peer_connect}
use zeronet.Node.Invariant.{NodeInv}
use zeronet.Node.Contacts.{Contact, directory, introduce, revise, or_old, learn, meet, set_contact}
use zeronet.Node.Contacts.Updates.{handle_update-directory}
use zeronet.Node.Crashes.{connect_peer-crashes}
use zeronet.Controller.Types.{Peer, proto}
use zeronet.Controller.Channels.{announcement, connect}

module _ {N : Noise} (L : IkPattern N) (W : Net) where
  -- The controller announces a peer that has connected to a consistent node. If the node knows the
  -- peer and survives, it has the row's name for it, and its key where that decodes; if the peer is
  -- new, and the node survives, it knows what the row says, or nothing if that cannot be used. A
  -- node that knows the peer goes down if the row's endpoint does not parse.
  pub handle_update-announcement :
      (peer : Peer) (n : Node N)
      → NodeInv L n
      → ((m : Node N) (c : Contact)
          → directory n peer.id ≡ some c
          → handle_update W (announcement connect peer) n ≡ done m
          → (d : Contact) × (directory m peer.id ≡ some d)
            × (d.hostname ≡ peer.hostname)
            × (d.public_key ≡ or_old c.public_key (W.decode_key peer.noise_public_key)))
        × ((m : Node N)
            → directory n peer.id ≡ none
            → handle_update W (announcement connect peer) n ≡ done m
            → directory m peer.id ≡ introduce W (proto peer))
        × ((k : ℕ)
            → load peer.id n.by_id ≡ some k
            → W.parse_addr_port peer.endpoint ≡ none
            → handle_update W (announcement connect peer) n ≡ panics failed)
  unfolding proto
  handle_update-announcement peer n v = (
    λ m c old e.
        let learnt = handle_update-directory L W (announcement connect peer) n m v e in
        (
          revise W (proto peer) c,
          ap (λ d. d peer.id) learnt ∙ unfold learn meet set_contact in ground arith,
          unfold revise in refl,
          unfold revise in refl,
        ),
    λ m new e.
        let learnt = handle_update-directory L W (announcement connect peer) n m v e in
        ap (λ d. d peer.id) learnt ∙ unfold learn meet set_contact in ground arith,
    λ k known bad.
        unfold handle_update handle_peer_connect in
        (connect_peer-crashes L W (proto peer) n k v known).0 bad,
  )
