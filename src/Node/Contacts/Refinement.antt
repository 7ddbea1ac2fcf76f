-- ===== src/Node/Contacts/Refinement.antt =====
-- The updates of the controller, refined: what they do to the store and the maps of a node is what they
-- mean for its directory.
use mathlib.Core.Path.{subst, fun_ext}
use zeronet.Prelude.{
  ℕ, ◌≡◌, ◌≢◌, refl, sym, ap, ◌∙◌, Option, some, none, List, [], ◌∷◌, arith, Bool-cases, inl, inr,
  ◌==◌, length,
}
use zeronet.Go.{Outcome, done, failed, ◌>>=◌, >>=-eq-done, or_panic}
use zeronet.Go.SyncMap.{load, nat_key, load-store}
use zeronet.Node.Noise.{Noise, IkPattern}
use zeronet.Node.Net.{Net}
use zeronet.Node.Peer.State.{Peer}
use zeronet.Node.State.{Node, peer_at, call, insert_peer}
use zeronet.Node.Client.{peer_of, add_peer, start_peer, update_peer, sync_peers, connect_peer}
use zeronet.Node.Invariant.{NodeInv}
use zeronet.Node.Invariant.Store.{call-NodeInv, insert_peer-NodeInv}
use zeronet.Node.Invariant.Kept.{start_peer-Kept, peer_of-Inv}
use zeronet.Node.Contacts.{
  Directory, Contact, directory, contact_of, introduce, revise, meet, meet_all, set_contact,
}
use zeronet.Node.Contacts.Peers.{
  directory-at, directory-none, peer_of-id, insert_peer-directory, call-directory, peer_at-last,
}
use zeronet.Node.Contacts.Info.{
  start_peer-contact, update_peer-contact, peer_of-contact, peer_of-none,
}
use zeronet.Controller.Types.{ProtoPeer}

-- A directory that differs from another at one id alone.
set_contact-eq :
    (i : ℕ) (c : Option Contact) (d e : Directory)
    → e i ≡ c
    → ((j : ℕ) → i ≢ j → e j ≡ d j)
    → e ≡ set_contact i c d
unfolding set_contact
set_contact-eq i c d e at others = fun_ext λ j. elim (Bool-cases (i == j)) [
  | inl s ↦ let same : i ≡ j = ground arith in ground (arith, ap e same)
  | inr s ↦ let apart : i ≢ j = ground arith in ground (arith, others j apart)
]

module _ {N : Noise} (L : IkPattern N) (W : Net) where
  -- A peer that is added and started.
  added-directory :
      (info : ProtoPeer) (p : Peer N) (n m : Node N)
      → NodeInv L n
      → peer_of W info ≡ some p
      → call (length n.peers) (start_peer W) (insert_peer p n) ≡ done m
      → directory m ≡ set_contact info.id (introduce W info) (directory n)
  added-directory info p n m v made e =
      let (id, meant) = peer_of-contact W info p made in
      let (fresh, old) = insert_peer-directory L p n v in
      let stored : load p.id (insert_peer p n).by_id ≡ some (length n.peers) =
        unfold insert_peer in load-store p.id (length n.peers) n.by_id in
      let here : peer_at (insert_peer p n).peers (length n.peers) ≡ some p =
        unfold insert_peer in peer_at-last n.peers p in
      let (q, started, at, others) =
        call-directory L (length n.peers) p.id (start_peer W) (insert_peer p n) m p
          (insert_peer-NodeInv L p n (peer_of-Inv L W info p made) v) stored here e in
      subst (λ i. directory m ≡ set_contact i (introduce W info) (directory n)) id
        (set_contact-eq p.id (introduce W info) (directory n) (directory m)
          (at ∙ ap some (start_peer-contact W p q started) ∙ sym meant)
          (λ j d. others j d ∙ old j d))

  first_added :
      (info : ProtoPeer) (rest : List ProtoPeer) (n m : Node N)
      → sync_peers W (info ∷ rest) n ≡ done m
      → (p : Peer N) × (r : Node N) × (peer_of W info ≡ some p)
        × (call (length n.peers) (start_peer W) (insert_peer p n) ≡ done r)
        × (sync_peers W rest r ≡ done m)
  unfolding sync_peers add_peer
  first_added info rest n m e = go (peer_of W info) refl
    where
      go :
          (o : Option (Peer N))
          → peer_of W info ≡ o
          → (p : Peer N) × (r : Node N) × (peer_of W info ≡ some p)
            × (call (length n.peers) (start_peer W) (insert_peer p n) ≡ done r)
            × (sync_peers W rest r ≡ done m)
      go none a = ground arith
      go (some p) a =
          let all : (call (length n.peers) (start_peer W) (insert_peer p n) >>= sync_peers W rest)
              ≡ done m =
            ground arith in
          let (r, f, g) =
            >>=-eq-done (call (length n.peers) (start_peer W) (insert_peer p n)) (sync_peers W rest)
              all in
          (p, r, a, f, g)

  pub sync_peers-directory :
      (infos : List ProtoPeer) (n m : Node N)
      → NodeInv L n
      → sync_peers W infos n ≡ done m
      → directory m ≡ meet_all W infos (directory n)
  unfolding meet_all
  sync_peers-directory [] n m v e =
      unfold sync_peers in let is : n ≡ m = ground arith in ap directory (sym is)
  sync_peers-directory (info ∷ rest) n m v e =
      let (p, r, a, f, g) = first_added info rest n m e in
      sync_peers-directory rest r m
        (call-NodeInv L (length n.peers) (start_peer W) (insert_peer p n) r (start_peer-Kept L W)
          (insert_peer-NodeInv L p n (peer_of-Inv L W info p a) v) f)
        g
      ∙ ap (meet_all W rest) (added-directory info p n r v a f)

  pub connect_peer-directory :
      (info : ProtoPeer) (n m : Node N)
      → NodeInv L n
      → connect_peer W info n ≡ done m
      → directory m ≡ meet W info (directory n)
  unfolding connect_peer add_peer meet
  connect_peer-directory info n m v e = go (load info.id n.by_id) refl
    where
      kept :
          introduce W info ≡ none
          → load info.id n.by_id ≡ none
          → n ≡ m
          → directory m ≡ meet W info (directory n)
      kept i a s =
          let bare : directory n info.id ≡ none = directory-none n info.id a in
          rw (bare, i)
            (set_contact-eq info.id none (directory n) (directory m)
              (ap (λ x. directory x info.id) (sym s) ∙ bare)
              (λ j d. ap (λ x. directory x j) (sym s)))

      new :
          (o : Option (Peer N))
          → peer_of W info ≡ o
          → load info.id n.by_id ≡ none
          → directory m ≡ meet W info (directory n)
      new none f a = kept (peer_of-none W info f) a (ground arith)
      new (some p) f a =
          rw (directory-none n info.id a) (added-directory info p n m v f (ground arith))

      known : (k : ℕ) → load info.id n.by_id ≡ some k → directory m ≡ meet W info (directory n)
      known k a =
          let (p, at, id) = peer_of-id L n info.id k v a in
          let updates : Peer N → Outcome (Peer N) =
            λ p. update_peer W info p >>= λ r. or_panic failed r in
          let (q, f, here, others) =
            call-directory L k info.id updates n m p v a at (ground arith) in
          let (r, g, h) = >>=-eq-done (update_peer W info p) (or_panic failed) f in
          rw (directory-at n info.id k p a at) (
            set_contact-eq info.id (some (revise W info (contact_of p))) (directory n) (directory m)
              (here ∙ ap some (update_peer-contact W info p q (ground arith))) (λ j d. others j d))

      go : (o : Option ℕ) → load info.id n.by_id ≡ o → directory m ≡ meet W info (directory n)
      go none a = new (peer_of W info) refl a
      go (some k) a = known k a
