-- ===== src/Node/Invariant/Kept.antt =====
-- The id and the invariant of a peer where an update changes it, or makes it.
use mathlib.Core.Path.{subst}
use zeronet.Prelude.{
  ℕ, ◌≡◌, refl, ◌∙◌, Option, some, none, List, arith, Bool-cases, inl, inr, String, Option-cases,
}
use zeronet.Go.{done, ◌>>=◌, >>=-eq-done, or_panic, failed}
use zeronet.Go.SyncMap.{nat_key}
use zeronet.Addr.{Addr}
use zeronet.Node.Noise.{Noise, IkPattern}
use zeronet.Node.Net.{Net}
use zeronet.Node.Buffer.{UdpAddr}
use zeronet.Node.Peer.State.{Peer}
use zeronet.Node.Peer.Lifecycle
use zeronet.Node.Peer.Lifecycle.{new_peer, start}
use zeronet.Node.Peer.Invariant.{Inv}
use zeronet.Node.Peer.Invariant.Events.{stop-Inv, start-Inv}
use zeronet.Node.Peer.Identity.{stop-Same, start-Same}
use zeronet.Node.Peer.Runs.{new_peer-Inv}
use zeronet.Node.Client.{
  peer_of, start_peer, or_invalid, bytes_eq, set_endpoint, set_hostname, set_key, set_ip,
  update_peer,
}
use zeronet.Controller.Types.{ProtoPeer}
use mathlib.Core.Option

module _ {N : Noise} (L : IkPattern N) (W : Net) where
  -- The id is kept, and with it the invariant.
  abbrev pub Kept : Peer N → Peer N → Type 0
  Kept p q = (q.id ≡ p.id) × Inv L q

  pub start_peer-Kept : (p q : Peer N) → Inv L p → start_peer W p ≡ done q → Kept p q
  start_peer-Kept p q v e = let (r, f, g) = >>=-eq-done (start p) _ e in go r f g
    where
      go : (r : Option (Peer N)) → start p ≡ done r → or_panic failed r ≡ done q → Kept p q
      go none f g = cc
      go (some x) f g =
          let is : x ≡ q = ground arith in
          subst (Kept p) is ((start-Same p x f).0, start-Inv L p x v f)

  set_endpoint-Kept : (a : UdpAddr) (p : Peer N) → Inv L p → Kept p (set_endpoint W a p)
  unfolding set_endpoint
  set_endpoint-Kept a p v = ground arith

  set_hostname-Kept : (h : String) (p : Peer N) → Inv L p → Kept p (set_hostname W h p)
  unfolding set_hostname
  set_hostname-Kept h p v = ground arith

  set_ip-Kept : (a : Addr) (p : Peer N) → Inv L p → Kept p (set_ip W a p)
  unfolding set_ip
  set_ip-Kept a p v = ground arith

  rekeyed : (k : List ℕ) (p : Peer N) → Inv L p → Inv L (record p { pubkey = k })
  rekeyed k p v = ground arith

  set_key-Kept : (k : Option (List ℕ)) (p q : Peer N) → Inv L p → set_key W k p ≡ done q → Kept p q
  unfolding set_key
  set_key-Kept none p q v e = ground arith
  set_key-Kept (some k) p q v e = elim (Bool-cases (bytes_eq p.pubkey k)) [
    | inl same ↦ ground arith
    | inr differ ↦
        let (r, f, g) =
          >>=-eq-done (Lifecycle.stop p) (λ r. start_peer W (record r { pubkey = k }))
            (rw differ at e) in
        let s : Inv L r = stop-Inv L p r v f in
        let (id, inv) = start_peer-Kept (record r { pubkey = k }) q (rekeyed k r s) g in
        (id ∙ (stop-Same p r f).0, inv)
  ]

  pub update_peer-Kept :
      (info : ProtoPeer) (p q : Peer N) → Inv L p → update_peer W info p ≡ done (some q) → Kept p q
  unfolding update_peer
  update_peer-Kept info p q v e = go (W.parse_addr_port info.endpoint) refl
    where
      go : (o : Option UdpAddr) → W.parse_addr_port info.endpoint ≡ o → Kept p q
      go none a = ground arith
      go (some new) a =
          let at = set_endpoint-Kept new p v in
          let named = set_hostname-Kept info.hostname (set_endpoint W new p) at.1 in
          let before : Peer N = set_hostname W info.hostname (set_endpoint W new p) in
          let all : (set_key W (W.decode_key info.public_key) before >>= λ r.
          done (some (set_ip W (or_invalid (W.parse_addr info.ip)) r)))
              ≡ done (some q) =
            ground arith in
          let (r, f, g) =
            >>=-eq-done (set_key W (W.decode_key info.public_key) before)
              (λ r. done (some (set_ip W (or_invalid (W.parse_addr info.ip)) r))) all in
          let keyed = set_key-Kept (W.decode_key info.public_key) before r named.1 f in
          let (id, inv) = set_ip-Kept (or_invalid (W.parse_addr info.ip)) r keyed.1 in
          let is : set_ip W (or_invalid (W.parse_addr info.ip)) r ≡ q = ground arith in
          subst (Kept p) is (id ∙ keyed.0 ∙ named.0 ∙ at.0, inv)

  pub peer_of-Inv : (info : ProtoPeer) (p : Peer N) → peer_of W info ≡ some p → Inv L p
  unfolding peer_of Option.bind
  peer_of-Inv info p e = elim (Option-cases (W.parse_addr info.ip)) [
    | inl n ↦ ground arith
    | inr (ip, f) ↦ elim (Option-cases (W.decode_key info.public_key)) [
      | inl n ↦ ground arith
      | inr (key, g) ↦ elim (Option-cases (W.resolve_udp_addr info.endpoint)) [
        | inl n ↦ ground arith
        | inr (a, h) ↦
            let is : new_peer info.id ip info.hostname key a ≡ p = ground arith in
            subst (Inv L) is (new_peer-Inv L info.id ip info.hostname key a)
      ]
    ]
  ]
