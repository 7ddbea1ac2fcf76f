-- ===== src/Node/Contacts/Updates.antt =====
-- The directory of a node through the updates that the controller sends.

use zeronet.Prelude.{
  ◌≡◌, refl, sym, ap, ◌∙◌, false, Option, some, none, List, [], ◌∷◌, arith, Bool-cases, inl, inr,
  ltb,
}
use zeronet.Go.{done, >>=-eq-done}
use zeronet.Node.Noise.{Noise, IkPattern}
use zeronet.Node.Net.{Net}
use zeronet.Node.State.{Node}
use zeronet.Node.Stop.{stop, stop_all_peers}
use zeronet.Node.Client.{
  handle_initial_sync, handle_peer_connect, handle_punch_request, handle_logout, handle_update,
  receive_updates,
}
use zeronet.Node.Invariant.{NodeInv}
use zeronet.Node.Invariant.Updates.{handle_update-NodeInv}
use zeronet.Node.Contacts.{directory, learn, learn_all, meet_listed, meet_list}
use zeronet.Node.Contacts.Refinement.{sync_peers-directory, connect_peer-directory}
use zeronet.Controller.Types.{ProtoPeer}
use zeronet.Controller.Channels.{
  Update, PeerList, UpdateType, init, connect, disconnect, punch, logout,
}

module _ {N : Noise} (L : IkPattern N) (W : Net) where
  -- The directory is read from the store and the map of ids alone.
  directory-same :
      (n m : Node N) → m.peers ≡ n.peers → m.by_id ≡ n.by_id → directory m ≡ directory n
  unfolding directory
  directory-same n m a b = rw (a, b) refl

  handle_logout-directory : (n : Node N) → directory (handle_logout W n) ≡ directory n
  unfolding handle_logout stop stop_all_peers
  handle_logout-directory n = directory-same n (handle_logout W n) (ground arith) (ground arith)

  handle_punch_request-directory :
      (u : Update) (n m : Node N) → handle_punch_request W u n ≡ done m → directory m ≡ directory n
  unfolding handle_punch_request
  handle_punch_request-directory u n m e = directory-same n m (ground arith) (ground arith)

  handle_peer_connect-directory :
      (u : Update) (n m : Node N)
      → NodeInv L n
      → handle_peer_connect W u n ≡ done m
      → directory m ≡ meet_listed W u.peer_list (directory n)
  unfolding handle_peer_connect
  handle_peer_connect-directory u n m v e = go u.peer_list refl
    where
      first :
          (l : PeerList)
          → u.peer_list ≡ some l
          → ltb l.count 1 ≡ false
          → (ps : List ProtoPeer) → l.peers ≡ ps
          → directory m ≡ meet_listed W (some l) (directory n)
      first l a c [] b = ground arith
      first l a c (info ∷ rest) b = rw (c, b) (connect_peer-directory L W info n m v (ground arith))

      go :
          (o : Option PeerList)
          → u.peer_list ≡ o
          → directory m ≡ meet_listed W u.peer_list (directory n)
      go none a = ground arith
      go (some l) a = rw a (elim (Bool-cases (ltb l.count 1)) [
        | inl c ↦ rw c (directory-same n m (ground arith) (ground arith))
        | inr c ↦ first l a c l.peers refl
      ])

  handle_initial_sync-directory :
      (u : Update) (n m : Node N)
      → NodeInv L n
      → handle_initial_sync W u n ≡ done m
      → directory m ≡ meet_list W u.peer_list (directory n)
  unfolding handle_initial_sync
  handle_initial_sync-directory u n m v e = go u.peer_list refl
    where
      go :
          (o : Option PeerList)
          → u.peer_list ≡ o
          → directory m ≡ meet_list W u.peer_list (directory n)
      go none a = ground arith
      go (some l) a = rw a (sync_peers-directory L W l.peers n m v (ground arith))

  -- An update that the node survives changes its directory the way that the update means.
  pub handle_update-directory :
      (u : Update) (n m : Node N)
      → NodeInv L n
      → handle_update W u n ≡ done m
      → directory m ≡ learn W u (directory n)
  unfolding handle_update learn
  handle_update-directory u n m v e = go u.update_type refl
    where
      go : (t : UpdateType) → u.update_type ≡ t → directory m ≡ learn W u (directory n)
      go init a = rw (a, learn) (handle_initial_sync-directory u n m v (ground arith))
      go connect a = rw (a, learn) (handle_peer_connect-directory u n m v (ground arith))
      go disconnect a = rw (a, learn) (directory-same n m (ground arith) (ground arith))
      go punch a = rw (a, learn) (handle_punch_request-directory u n m (ground arith))
      go logout a =
          let is : handle_logout W n ≡ m = ground arith in
          rw (a, learn) (sym (ap directory is) ∙ handle_logout-directory n)

  -- A consistent node that handles any updates, one after the other, and survives them knows exactly
  -- the peers that the updates mean, with the name, key and address of each, whatever it has in its
  -- store and its maps.
  pub receive_updates-directory :
      (us : List Update) (n m : Node N)
      → NodeInv L n
      → receive_updates W us n ≡ done m
      → directory m ≡ learn_all W us (directory n)
  unfolding receive_updates learn_all
  receive_updates-directory [] n m v e = let is : n ≡ m = ground arith in ap directory (sym is)
  receive_updates-directory (u ∷ us) n m v e =
      let (r, f, g) = >>=-eq-done (handle_update W u n) (receive_updates W us) e in
      receive_updates-directory us r m (handle_update-NodeInv L W u n r v f) g
      ∙ ap (learn_all W us) (handle_update-directory u n r v f)
