-- ===== src/Node/Contacts/Peers.antt =====
-- The contacts of a node where a peer is added, or changes.
use mathlib.Core.Option
use mathlib.Core.Option.{some-injective, none-ne-some}
use mathlib.Core.Path.{subst}
use zeronet.Prelude.{
  ℕ, zero, suc, ◌≡◌, ◌≢◌, refl, sym, ap, ◌∙◌, Option, some, none, List, [], ◌∷◌, ◌++◌, arith,
  length,
}
use zeronet.Go.{Outcome, done, panics, blocks}
use zeronet.Go.SyncMap.{load, nat_key, load-store, load-store_other}
use zeronet.Node.Noise.{Noise, IkPattern}
use zeronet.Node.Peer.State.{Peer}
use zeronet.Node.State.{Node, peer_at, set_peer, call, insert_peer, addr_key}
use zeronet.Node.Invariant.{NodeInv, HasId}
use zeronet.Node.Invariant.Store.{All-load}
use zeronet.Node.Contacts.{directory, contact_of}

module _ {N : Noise} where
  pub peer_at-append :
      (ps qs : List (Peer N)) (k : ℕ) (p : Peer N)
      → peer_at ps k ≡ some p
      → peer_at (ps ++ qs) k ≡ some p
  peer_at-append [] qs k p e = absurd (none-ne-some _ e)
  peer_at-append (x ∷ ps) qs zero p e = e
  peer_at-append (x ∷ ps) qs (suc k) p e = peer_at-append ps qs k p e

  pub peer_at-last : (ps : List (Peer N)) (p : Peer N) → peer_at (ps ++ p ∷ []) (length ps) ≡ some p
  peer_at-last [] p = refl
  peer_at-last (q ∷ ps) p = peer_at-last ps p

  pub peer_at-set :
      (ps : List (Peer N)) (k : ℕ) (p q : Peer N)
      → peer_at ps k ≡ some p
      → peer_at (set_peer k q ps) k ≡ some q
  peer_at-set [] k p q e = absurd (none-ne-some _ e)
  peer_at-set (x ∷ ps) zero p q e = refl
  peer_at-set (x ∷ ps) (suc k) p q e = peer_at-set ps k p q e

  peer_at-set_other :
      (ps : List (Peer N)) (k l : ℕ) (q : Peer N)
      → k ≢ l
      → peer_at (set_peer k q ps) l ≡ peer_at ps l
  peer_at-set_other [] k l q d = refl
  peer_at-set_other (x ∷ ps) zero zero q d = absurd (d refl)
  peer_at-set_other (x ∷ ps) zero (suc l) q d = refl
  peer_at-set_other (x ∷ ps) (suc k) zero q d = refl
  peer_at-set_other (x ∷ ps) (suc k) (suc l) q d = peer_at-set_other ps k l q (λ e. d (ap suc e))

  pub directory-at :
      (n : Node N) (i k : ℕ) (p : Peer N)
      → load i n.by_id ≡ some k
      → peer_at n.peers k ≡ some p
      → directory n i ≡ some (contact_of p)
  unfolding directory Option.bind
  directory-at n i k p e f = rw (e, f, directory) refl

  pub directory-none : (n : Node N) (i : ℕ) → load i n.by_id ≡ none → directory n i ≡ none
  unfolding directory Option.bind
  directory-none n i e = rw (e, directory) refl

module _ {N : Noise} (L : IkPattern N) where
  -- The peer that the map of ids leads to.
  pub peer_of-id :
      (n : Node N) (i k : ℕ) → NodeInv L n → load i n.by_id ≡ some k → HasId n.peers k i
  peer_of-id n i k v e = All-load _ i k n.by_id v.ids e

  pub insert_peer-directory :
      (p : Peer N) (n : Node N)
      → NodeInv L n
      → (directory (insert_peer p n) p.id ≡ some (contact_of p))
        × ((j : ℕ) → p.id ≢ j → directory (insert_peer p n) j ≡ directory n j)
  unfolding insert_peer
  insert_peer-directory p n v = (
    directory-at (insert_peer p n) p.id (length n.peers) p
        (load-store p.id (length n.peers) n.by_id) (peer_at-last n.peers p),
    λ j d. others j d (load j n.by_id) refl,
  )
    where
      others :
          (j : ℕ)
          → p.id ≢ j
          → (o : Option ℕ) → load j n.by_id ≡ o
          → directory (insert_peer p n) j ≡ directory n j
      others j d none e =
          directory-none (insert_peer p n) j (load-store_other (length n.peers) n.by_id d ∙ e)
          ∙ sym (directory-none n j e)
      others j d (some k) e =
          let (q, at, id) = All-load _ j k n.by_id v.ids e in
          directory-at (insert_peer p n) j k q (load-store_other (length n.peers) n.by_id d ∙ e)
            (peer_at-append n.peers (p ∷ []) k q at)
          ∙ sym (directory-at n j k q e at)

  -- A call changes the contact of the peer that it is a call of, and no other.
  pub call-directory :
      (k i : ℕ) (f : Peer N → Outcome (Peer N)) (n m : Node N) (p : Peer N)
      → NodeInv L n
      → load i n.by_id ≡ some k
      → peer_at n.peers k ≡ some p
      → call k f n ≡ done m
      → (q : Peer N) × (f p ≡ done q)
        × (directory m i ≡ some (contact_of q))
        × ((j : ℕ) → i ≢ j → directory m j ≡ directory n j)
  unfolding call
  call-directory k i f n m p v e at g = result (f p) refl
    where
      changed : (q : Peer N) → Node N
      changed q = record n { peers = set_peer k q n.peers }

      others :
          (q : Peer N) (j : ℕ)
          → i ≢ j
          → (o : Option ℕ) → load j n.by_id ≡ o
          → directory (changed q) j ≡ directory n j
      others q j d none a = directory-none (changed q) j a ∙ sym (directory-none n j a)
      others q j d (some l) a =
          let (r, there, id) = All-load _ j l n.by_id v.ids a in
          let (p', here, id') = All-load _ i k n.by_id v.ids e in
          let apart : k ≢ l = λ s. d (
            sym id'
            ∙ ap (λ (x : Peer N). x.id)
                (some-injective _ _ (sym here ∙ ap (peer_at n.peers) s ∙ there))
            ∙ id) in
          directory-at (changed q) j l r a (peer_at-set_other n.peers k l q apart ∙ there)
          ∙ sym (directory-at n j l r a there)

      result :
          (r : Outcome (Peer N))
          → f p ≡ r
          → (q : Peer N) × (f p ≡ done q)
            × (directory m i ≡ some (contact_of q))
            × ((j : ℕ) → i ≢ j → directory m j ≡ directory n j)
      result (done q) u =
          let is : changed q ≡ m = ground arith in
          (
            q,
            u,
            subst (λ x. directory x i ≡ some (contact_of q)) is
                (directory-at (changed q) i k q e (peer_at-set n.peers k p q at)),
            λ j d.
                subst (λ x. directory x j ≡ directory n j) is (others q j d (load j n.by_id) refl),
          )
      result (panics x) u = ground arith
      result blocks u = ground arith
