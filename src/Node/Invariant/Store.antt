-- ===== src/Node/Invariant/Store.antt =====
-- The invariant of a node where a peer changes, or is added.
use zeronet.Addr.{Addr}
use mathlib.Core.Option.{some-injective, none-ne-some}
use mathlib.Core.Path.{subst}
use zeronet.Prelude.{
  ℕ, zero, suc, ◌≡◌, refl, sym, ap, ◌∙◌, true, false, Option, some, none, List, [], ◌∷◌, ◌++◌,
  arith, All, All-append, length, Bool-cases, inl, inr, ◌⊎◌,
}
use zeronet.Go.{Outcome, done, panics, blocks}
use zeronet.Go.SyncMap.{load, store, delete, Key, nat_key}
use zeronet.Node.Noise.{Noise, IkPattern}
use zeronet.Node.Peer.State.{Peer}
use zeronet.Node.Peer.Invariant.{Inv}
use zeronet.Node.State.{Node, peer_at, set_peer, call, insert_peer, addr_key}
use zeronet.Node.Invariant.{HasId, NodeInv, Addr, Points}

-- A predicate on the entries survives a step that it survives at each entry.
pub All-map {ℓ κ} :
    {A : Type ℓ} (P Q : A → Type κ) (xs : List A) → ((x : A) → P x → Q x) → All P xs → All Q xs
All-map P Q [] f h = tt
All-map P Q (x ∷ xs) f (h, hs) = (f x h, All-map P Q xs f hs)

module _ {ℓ κ μ} {K : Type ℓ} {V : Type κ} ⦃e : Key K⦄ where
  All-delete : (P : K × V → Type μ) (k : K) (m : List (K × V)) → All P m → All P (delete k m)
  unfolding delete
  All-delete P k [] h = tt
  All-delete P k ((l, v) ∷ m) (h, hs) = elim (Bool-cases (e.same l k)) [
    | inl s ↦ rw s (All-delete P k m hs)
    | inr s ↦ rw s (h, All-delete P k m hs)
  ]

  pub All-store :
      (P : K × V → Type μ) (k : K) (v : V) (m : List (K × V))
      → P (k, v)
      → All P m
      → All P (store k v m)
  unfolding store
  All-store P k v m h hs = (h, All-delete P k m hs)

  pub All-load :
      (P : K × V → Type μ) (k : K) (v : V) (m : List (K × V))
      → All P m
      → load k m ≡ some v
      → P (k, v)
  unfolding load
  All-load P k v [] h f = absurd (none-ne-some _ f)
  All-load P k v ((l, w) ∷ m) (h, hs) f = go (Bool-cases (e.same l k)) h (All-load P k v m hs)
    where
      go :
          (e.same l k ≡ true) ⊎ (e.same l k ≡ false)
          → P (l, w)
          → (load k m ≡ some v → P (k, v))
          → P (k, v)
      go (inl s) h rec =
          let same : w ≡ v = some-injective _ _ (rw s at f) in
          subst (λ x. P (k, x)) same (subst (λ x. P (x, w)) ((e.same_iff l k).0 s) h)
      go (inr s) h rec = rec (rw s at f)

module _ {N : Noise} where
  HasId-set :
      (ps : List (Peer N)) (k j i : ℕ) (p q : Peer N)
      → peer_at ps k ≡ some p
      → q.id ≡ p.id
      → HasId ps j i
      → HasId (set_peer k q ps) j i
  HasId-set [] k j i p q e same h = h
  HasId-set (r ∷ ps) zero zero i p q e same (x, f, g) =
      (q, refl, same ∙ ap (λ (y : Peer N). y.id) (some-injective _ _ (sym e ∙ f)) ∙ g)
  HasId-set (r ∷ ps) zero (suc j) i p q e same h = h
  HasId-set (r ∷ ps) (suc k) zero i p q e same h = h
  HasId-set (r ∷ ps) (suc k) (suc j) i p q e same h = HasId-set ps k j i p q e same h

  HasId-append : (ps qs : List (Peer N)) (j i : ℕ) → HasId ps j i → HasId (ps ++ qs) j i
  HasId-append [] qs j i (p, e, f) = absurd (none-ne-some _ e)
  HasId-append (p ∷ ps) qs zero i h = h
  HasId-append (p ∷ ps) qs (suc j) i h = HasId-append ps qs j i h

  HasId-last : (ps : List (Peer N)) (p : Peer N) → HasId (ps ++ p ∷ []) (length ps) p.id
  HasId-last [] p = (p, refl, refl)
  HasId-last (q ∷ ps) p = HasId-last ps p

  All-set :
      (P : Peer N → Type 0) (ps : List (Peer N)) (k : ℕ) (q : Peer N)
      → P q
      → All P ps
      → All P (set_peer k q ps)
  All-set P [] k q h hs = tt
  All-set P (p ∷ ps) zero q h hs = (h, hs.1)
  All-set P (p ∷ ps) (suc k) q h hs = (hs.0, All-set P ps k q h hs.1)

  pub All-peer_at :
      (P : Peer N → Type 0) (ps : List (Peer N)) (k : ℕ) (p : Peer N)
      → All P ps
      → peer_at ps k ≡ some p
      → P p
  All-peer_at P [] k p h e = absurd (none-ne-some _ e)
  All-peer_at P (q ∷ ps) zero p h e = subst P (some-injective _ _ e) h.0
  All-peer_at P (q ∷ ps) (suc k) p h e = All-peer_at P ps k p h.1 e

module _ {N : Noise} (L : IkPattern N) where
  pub insert_peer-NodeInv :
      (p : Peer N) (n : Node N) → Inv L p → NodeInv L n → NodeInv L (insert_peer p n)
  unfolding insert_peer
  insert_peer-NodeInv p n v h = record {
    ids =
        All-store _ p.id (length n.peers) n.by_id (HasId-last n.peers p)
          (All-map _ _ n.by_id (λ e. HasId-append n.peers (p ∷ []) e.1 e.0) h.ids);
    ips =
        All-store _ p.ip (length n.peers) n.by_ip (p.id, HasId-last n.peers p)
          (All-map _ _ n.by_ip (λ e x. (x.0, HasId-append n.peers (p ∷ []) e.1 x.0 x.1)) h.ips);
    stops = All-map _ _ n.stopping (λ k x. (x.0, HasId-append n.peers (p ∷ []) k x.0 x.1)) h.stops;
    peers = All-append (Inv L) n.peers (p ∷ []) h.peers (v, tt);
  }

  -- A method that returns, and keeps the id and the invariant of its peer, keeps that of the node.
  pub call-NodeInv :
      (k : ℕ) (f : Peer N → Outcome (Peer N)) (n m : Node N)
      → ((p q : Peer N) → Inv L p → f p ≡ done q → (q.id ≡ p.id) × Inv L q)
      → NodeInv L n
      → call k f n ≡ done m
      → NodeInv L m
  unfolding call
  call-NodeInv k f n m keeps h e = go (peer_at n.peers k) refl
    where
      changed :
          (p q : Peer N)
          → peer_at n.peers k ≡ some p
          → (q.id ≡ p.id) × Inv L q
          → NodeInv L (record n { peers = set_peer k q n.peers })
      changed p q a (id, v) = record {
        ids = All-map _ _ n.by_id (λ e. HasId-set n.peers k e.1 e.0 p q a id) h.ids;
        ips = All-map _ _ n.by_ip (λ e x. (x.0, HasId-set n.peers k e.1 x.0 p q a id x.1)) h.ips;
        stops =
            All-map _ _ n.stopping (λ j x. (x.0, HasId-set n.peers k j x.0 p q a id x.1)) h.stops;
        peers = All-set (Inv L) n.peers k q v h.peers;
      }

      result :
          (p : Peer N) → peer_at n.peers k ≡ some p → (r : Outcome (Peer N)) → f p ≡ r → NodeInv L m
      result p a (done q) u =
          let same : record n { peers = set_peer k q n.peers } ≡ m = ground arith in
          subst (NodeInv L) same
            (changed p q a (keeps p q (All-peer_at (Inv L) n.peers k p h.peers a) u))
      result p a (panics x) u = ground arith
      result p a blocks u = ground arith

      go : (o : Option (Peer N)) → peer_at n.peers k ≡ o → NodeInv L m
      go none a = ground arith
      go (some p) a = result p a (f p) refl

  -- The invariant is about the store, the maps and the peers to be stopped, and about nothing else.
  pub NodeInv-same :
      (n m : Node N)
      → (m.peers ≡ n.peers) × (m.by_id ≡ n.by_id) × (m.by_ip ≡ n.by_ip) × (m.stopping ≡ n.stopping)
      → NodeInv L n
      → NodeInv L m
  NodeInv-same n m (a, b, c, d) h = record {
    ids =
        subst (λ ps. All (λ (e : ℕ × ℕ). HasId ps e.1 e.0) m.by_id) (sym a)
          (subst (All (λ (e : ℕ × ℕ). HasId n.peers e.1 e.0)) (sym b) h.ids);
    ips =
        subst (λ ps. All (λ (e : Addr × ℕ). Points ps e.1) m.by_ip) (sym a)
          (subst (All (λ (e : Addr × ℕ). Points n.peers e.1)) (sym c) h.ips);
    stops =
        subst (λ ps. All (λ k. Points ps k) m.stopping) (sym a)
          (subst (All (λ k. Points n.peers k)) (sym d) h.stops);
    peers = subst (All (Inv L)) (sym a) h.peers;
  }
