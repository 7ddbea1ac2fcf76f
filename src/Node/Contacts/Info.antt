-- ===== src/Node/Contacts/Info.antt =====
-- The contact that a message of the controller makes of a peer.
use mathlib.Core.Option
use mathlib.Core.Path.{subst}
use zeronet.Prelude.{
  ℕ, ◌≡◌, refl, sym, ap, ◌∙◌, true, Option, some, none, List, [], ◌∷◌, arith, Bool-cases, inl, inr,
  String, str_eq, eq_iff,
}
use zeronet.Go.{Outcome, done, ◌>>=◌, >>=-eq-done, or_panic, failed}
use zeronet.Addr.{Addr, addr_eq, addr_eq_iff}
use zeronet.Node.Noise.{Noise}
use zeronet.Node.Net.{Net}
use zeronet.Node.Buffer.{UdpAddr}
use zeronet.Node.Peer.State.{Peer, reset_state}
use zeronet.Node.Peer.Handshake.{lock_pending, unlock_pending}
use zeronet.Node.Peer.Lifecycle
use zeronet.Node.Peer.Lifecycle.{new_peer, start, await_routines}
use zeronet.Node.Client.{
  peer_of, start_peer, bytes_eq, set_endpoint, set_hostname, set_key, set_ip, update_peer,
  or_invalid,
}
use zeronet.Node.Contacts.{Contact, contact_of, introduce, revise, or_old}
use zeronet.Controller.Types.{ProtoPeer}

bytes_eq_sound : (a b : List ℕ) → bytes_eq a b ≡ true → a ≡ b
bytes_eq_sound [] [] e = refl
bytes_eq_sound [] (y ∷ b) e = cc
bytes_eq_sound (x ∷ a) [] e = cc
bytes_eq_sound (x ∷ a) (y ∷ b) e = ground (arith, bytes_eq_sound a b)

module _ {N : Noise} where
  start-contact : (p q : Peer N) → start p ≡ done (some q) → contact_of q ≡ contact_of p
  unfolding start lock_pending
  start-contact p q e = ground arith

  stop-contact : (p q : Peer N) → Lifecycle.stop p ≡ done q → contact_of q ≡ contact_of p
  unfolding Lifecycle.stop reset_state await_routines unlock_pending
  stop-contact p q e = ground arith

module _ {N : Noise} (W : Net) where
  pub start_peer-contact : (p q : Peer N) → start_peer W p ≡ done q → contact_of q ≡ contact_of p
  start_peer-contact p q e = let (r, f, g) = >>=-eq-done (start p) _ e in go r f g
    where
      go :
          (r : Option (Peer N))
          → start p ≡ done r
          → or_panic failed r ≡ done q
          → contact_of q ≡ contact_of p
      go none f g = cc
      go (some x) f g =
          let is : x ≡ q = ground arith in
          subst (λ y. contact_of y ≡ contact_of p) is (start-contact p x f)

  set_endpoint-contact : (a : UdpAddr) (p : Peer N) → contact_of (set_endpoint W a p) ≡ contact_of p
  unfolding set_endpoint
  set_endpoint-contact a p = ground arith

  set_hostname-contact :
      (h : String) (p : Peer N)
      → contact_of (set_hostname W h p) ≡ record (contact_of p) { hostname = h }
  unfolding set_hostname
  set_hostname-contact h p = elim (Bool-cases (str_eq p.hostname h)) [
    | inl s ↦ ground (arith, (eq_iff p.hostname h).0 s)
    | inr s ↦ ground arith
  ]

  set_ip-contact :
      (a : Addr) (p : Peer N) → contact_of (set_ip W a p) ≡ record (contact_of p) { ip = a }
  unfolding set_ip
  set_ip-contact a p = elim (Bool-cases (addr_eq p.ip a)) [
    | inl s ↦ ground (arith, (addr_eq_iff p.ip a).0 s)
    | inr s ↦ ground arith
  ]

  set_key-contact :
      (k : Option (List ℕ)) (p q : Peer N)
      → set_key W k p ≡ done q
      → contact_of q ≡ record (contact_of p) { public_key = or_old p.pubkey k }
  unfolding set_key
  set_key-contact none p q e = ground arith
  set_key-contact (some k) p q e = elim (Bool-cases (bytes_eq p.pubkey k)) [
    | inl same ↦ ground (arith, bytes_eq_sound p.pubkey k same)
    | inr differ ↦
        let (r, f, g) =
          >>=-eq-done (Lifecycle.stop p) (λ r. start_peer W (record r { pubkey = k }))
            (rw differ at e) in
        start_peer-contact (record r { pubkey = k }) q g
        ∙ ap (λ (c : Contact). record c { public_key = k }) (stop-contact p r f)
  ]

  pub update_peer-contact :
      (info : ProtoPeer) (p q : Peer N)
      → update_peer W info p ≡ done (some q)
      → contact_of q ≡ revise W info (contact_of p)
  unfolding update_peer revise
  update_peer-contact info p q e = go (W.parse_addr_port info.endpoint) refl
    where
      go :
          (o : Option UdpAddr)
          → W.parse_addr_port info.endpoint ≡ o
          → contact_of q ≡ revise W info (contact_of p)
      go none a = ground arith
      go (some new) a =
          let at : Peer N = set_endpoint W new p in
          let before : Peer N = set_hostname W info.hostname at in
          let key : Option (List ℕ) = W.decode_key info.public_key in
          let ip : Addr = or_invalid (W.parse_addr info.ip) in
          let moves : Peer N → Outcome (Option (Peer N)) = λ r. done (some (set_ip W ip r)) in
          let all : (set_key W key before >>= moves) ≡ done (some q) = ground arith in
          let (r, f, g) = >>=-eq-done (set_key W key before) moves all in
          let is : set_ip W ip r ≡ q = ground arith in
          let named : contact_of before ≡ record (contact_of p) { hostname = info.hostname } =
            set_hostname-contact info.hostname at
            ∙ ap (λ (c : Contact). record c { hostname = info.hostname })
                (set_endpoint-contact new p) in
          sym (ap contact_of is)
          ∙ set_ip-contact ip r
          ∙ ap (λ (c : Contact). record c { ip = ip }) (set_key-contact key before r f)
          ∙ ap (λ (c : Contact). record c { ip = ip; public_key = or_old c.public_key key }) named

  pub peer_of-contact :
      (info : ProtoPeer)
      → (p : Peer N) → peer_of W info ≡ some p
      → (p.id ≡ info.id) × (introduce W info ≡ some (contact_of p))
  unfolding peer_of introduce Option.bind
  peer_of-contact info p e = ground arith

  pub peer_of-none : (info : ProtoPeer) → peer_of {N = N} W info ≡ none → introduce W info ≡ none
  unfolding peer_of introduce Option.bind
  peer_of-none info e = ground arith
