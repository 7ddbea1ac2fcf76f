-- ===== src/Controller/Server/Register.antt =====
-- What registering a peer does to the table.
use zeronet.Controller.Server.Rows.{Has-append}
use mathlib.Core.Path.{subst}
use zeronet.Prelude.{
  ℕ, ◌≡◌, refl, String, Option, some, none, [], ◌∷◌, ◌++◌, arith, false, true, sym, ap, All, ◌≢◌,
}
use zeronet.Go.{ok, err}
use zeronet.Controller.Types.{Peer}
use zeronet.Controller.Store.{Gorm, Has}
use zeronet.Controller.Ipam.{Netip, Prefix, allocate_peer_ip}
use zeronet.Controller.Channels.{Controller}
use zeronet.Controller.Server.{LoginPeerRequest, requested_peer, register_peer, Failure, err}

module _ (G : Gorm) (I : Netip) (prefix_string : Prefix → String) where
  -- `p` is the peer of the request, at the address `ip` that was allocated, and the new last row.
  pub Registered :
      ℕ → Prefix → LoginPeerRequest → String → Peer → String → (c c' : Controller G) → Type 0
  Registered now prefix req user p ip c c' =
      (allocate_peer_ip I G c.db prefix ≡ some ip)
      × (p ≡ record (requested_peer G I prefix_string now req prefix ip user) {
        id = p.id;
        created_at = now;
        updated_at = now;
      })
      × (G.rows c'.db ≡ G.rows c.db ++ p ∷ [])
      × All (λ (r : Peer). p.id ≢ r.id) (G.rows c.db)

  pub register_peer-Registered :
      (now : ℕ) (prefix : Prefix) (req : LoginPeerRequest) (user : String) (c c' : Controller G)
      (p : Peer)
      → register_peer G I prefix_string now prefix req user c ≡ (c', ok p)
      → (ip : String) × Registered now prefix req user p ip c c'
  unfolding register_peer Registered
  register_peer-Registered now prefix req user c c' p h =
      ip_case (allocate_peer_ip I G c.db prefix) refl
    where
      asked : String → Peer
      asked ip = requested_peer G I prefix_string now req prefix ip user

      created :
          (ip : String)
          → allocate_peer_ip I G c.db prefix ≡ some ip
          → (x : G.Db × Option Peer) → G.create c.db now (asked ip) ≡ x
          → Registered now prefix req user p ip c c'
      created ip a (d, none) u = ground arith
      created ip a (d, some q) u =
          let (row, rows, fresh) = G.create-some c.db d now (asked ip) q u in
          let same : q ≡ p = ground arith in
          let at : d ≡ c'.db = ground arith in
          let there : G.rows c'.db ≡ G.rows c.db ++ q ∷ [] =
            subst (λ z. G.rows z ≡ G.rows c.db ++ q ∷ []) at rows in
          subst
            (λ (r : Peer).
              (allocate_peer_ip I G c.db prefix ≡ some ip)
              × (r ≡ record (asked ip) { id = r.id; created_at = now; updated_at = now })
              × (G.rows c'.db ≡ G.rows c.db ++ r ∷ [])
              × All (λ (x : Peer). r.id ≢ x.id) (G.rows c.db))
            same (a, row, there, fresh)

      ip_case :
          (o : Option String)
          → allocate_peer_ip I G c.db prefix ≡ o
          → (ip : String) × Registered now prefix req user p ip c c'
      ip_case none a = ground arith
      ip_case (some ip) a = (ip, created ip a (G.create c.db now (asked ip)) refl)

  pub register_peer-Has :
      (now : ℕ) (prefix : Prefix) (req : LoginPeerRequest) (user : String) (c c' : Controller G)
      (p : Peer)
      → register_peer G I prefix_string now prefix req user c ≡ (c', ok p)
      → Has p (G.rows c'.db)
        × (p.machine_id ≡ req.machine_id)
        × (p.disabled ≡ false)
        × (p.logged_in ≡ true)
        × (p.last_auth ≡ now)
  unfolding Registered
  register_peer-Has now prefix req user c c' p h =
      let (ip, r) = register_peer-Registered now prefix req user c c' p h in
      let (_, is, rows, _) = r in
      (
        subst (Has p) (sym rows) (Has-append p (G.rows c.db)),
        ap (λ (q : Peer). q.machine_id) is,
        ap (λ (q : Peer). q.disabled) is,
        ap (λ (q : Peer). q.logged_in) is,
        ap (λ (q : Peer). q.last_auth) is,
      )

  -- The fields of `Registered` that tell the new row from the others.
  pub registered :
      (now : ℕ) (prefix : Prefix) (req : LoginPeerRequest) (user : String) (p : Peer) (ip : String)
      (c c' : Controller G)
      → Registered now prefix req user p ip c c'
      → (allocate_peer_ip I G c.db prefix ≡ some ip)
        × (p.ip ≡ ip)
        × (G.rows c'.db ≡ G.rows c.db ++ p ∷ [])
        × All (λ (r : Peer). p.id ≢ r.id) (G.rows c.db)
  unfolding Registered
  registered now prefix req user p ip c c' r =
      let (a, is, rows, fresh) = r in (a, ap (λ (q : Peer). q.ip) is, rows, fresh)

  pub register_peer-refused :
      (now : ℕ) (prefix : Prefix) (req : LoginPeerRequest) (user : String) (c c' : Controller G)
      (f : Failure)
      → register_peer G I prefix_string now prefix req user c ≡ (c', err f)
      → G.rows c'.db ≡ G.rows c.db
  unfolding register_peer
  register_peer-refused now prefix req user c c' f h =
      ip_case (allocate_peer_ip I G c.db prefix) refl
    where
      created :
          (ip : String)
          → allocate_peer_ip I G c.db prefix ≡ some ip
          → (x : G.Db × Option Peer)
          → G.create c.db now (requested_peer G I prefix_string now req prefix ip user) ≡ x
          → G.rows c'.db ≡ G.rows c.db
      created ip a (d, some q) u = ground arith
      created ip a (d, none) u =
          let at : d ≡ c'.db = ground arith in
          subst (λ z. G.rows z ≡ G.rows c.db) at
            (G.create-none c.db d now (requested_peer G I prefix_string now req prefix ip user) u)

      ip_case :
          (o : Option String) → allocate_peer_ip I G c.db prefix ≡ o → G.rows c'.db ≡ G.rows c.db
      ip_case none a = ground arith
      ip_case (some ip) a =
          created ip a (G.create c.db now (requested_peer G I prefix_string now req prefix ip user))
            refl
