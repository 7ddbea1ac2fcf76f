-- ===== src/Controller/Ipam/Free.antt =====
-- The address that the allocator hands out is free, and is the first that is.
use zeronet.Addr.{addr_eq_self}
use mathlib.Core.Path.{fun_ext}
use mathlib.Core.Option.{some-injective}
use mathlib.Core.Path.{subst}
use zeronet.Prelude.{
  ℕ, zero, suc, ◌<◌, ◌≡◌, refl, String, Bool, true, false, Option, some, none, List, [], ◌∷◌, map,
  arith, Bool-cases, ◌≢◌, inl, All, inr, sym, ◌∙◌, ap, ◌⊎◌,
}
use zeronet.Controller.Types.{Peer}
use zeronet.Controller.Store.{Gorm}
use zeronet.Controller.Ipam.{
  Addr, invalid, v4, v6, next, left, next_free, Netip, Prefix, allocate_peer_ip, parse_all, taken,
  contains_addr, get_allocated_ips,
}

-- From `a` on, every address is used up to `r`, which is not.
pub data FirstFree (used : Addr → Bool) : Addr → Addr → Type 0 where
  here : {a : Addr} → used a ≡ false → FirstFree used a a
  later : {a r : Addr} → used a ≡ true → FirstFree used (next a) r → FirstFree used a r

left-next : (a : Addr) → a ≢ invalid → left (next a) < left a
unfolding next
left-next invalid h = absurd (h refl)
left-next (v4 n) h = ground arith
left-next (v6 n) h = ground arith

next_free-FirstFree :
    (fuel : ℕ) (used : Addr → Bool) (a : Addr)
    → used invalid ≡ false
    → left a < fuel
    → (r : Addr) × (next_free fuel used a ≡ some r) × FirstFree used a r
unfolding next_free
next_free-FirstFree zero used a v h = elim h [ ]
next_free-FirstFree (suc fuel) used a v h = elim (Bool-cases (used a)) [
  | inl u ↦
      let (r, e, f) =
        next_free-FirstFree fuel used (next a) v
          (omega (arith, left-next a (λ i. absurd_used i u))) in
      (r, rw u e, later u f)
  | inr u ↦ (a, rw u, here u)
]
  where
    absurd_used : a ≡ invalid → used a ≡ true → ⊥
    absurd_used i u = ground arith

FirstFree-unused : {used : Addr → Bool} {a r : Addr} → FirstFree used a r → used r ≡ false
FirstFree-unused (here u) = u
FirstFree-unused (later u f) = FirstFree-unused f

not-contains : (xs : List Addr) (x r : Addr) → contains_addr (x ∷ xs) r ≡ false → r ≢ x
not-contains xs x r u e = ground (arith, addr_eq_self r)

module _ (I : Netip) (G : Gorm) where
  -- An address that no row of the table was parsed to is the text of no row.
  unparsed-fresh :
      (ps : List Peer) (r : Addr)
      → r ≢ invalid
      → contains_addr (parse_all I (map (λ p. p.ip) ps)) r ≡ false
      → All (λ (p : Peer). p.ip ≢ I.addr_string r) ps
  unfolding parse_all
  unparsed-fresh [] r v u = tt
  unparsed-fresh (p ∷ ps) r v u =
      let (a, b) = parts (I.parse_addr p.ip) refl in (a, unparsed-fresh ps r v b)
    where
      parts :
          (o : Option Addr)
          → I.parse_addr p.ip ≡ o
          → (p.ip ≢ I.addr_string r)
            × (contains_addr (parse_all I (map (λ (q : Peer). q.ip) ps)) r ≡ false)
      parts none e = (λ f. ground (arith, I.parse-string r v), ground arith)
      parts (some a) e = (λ f. ground (arith, I.parse-string r v, addr_eq_self r), ground arith)

  allocated-fresh :
      (d : G.Db) (ips : List Addr) (r : Addr)
      → r ≢ invalid
      → get_allocated_ips I G d ≡ some ips
      → contains_addr ips r ≡ false
      → All (λ (q : Peer). q.ip ≢ I.addr_string r) (G.rows d)
  unfolding get_allocated_ips
  allocated-fresh d ips r v e u = go (G.pluck_ip d) refl
    where
      go :
          (o : Option (List String))
          → G.pluck_ip d ≡ o
          → All (λ (q : Peer). q.ip ≢ I.addr_string r) (G.rows d)
      go none g = cc
      go (some ts) g = unparsed-fresh (G.rows d) r v (ground (arith, G.pluck_ip-some d ts g))

  allocate_peer_ip-eq :
      (d : G.Db) (p : Prefix) (ips : List Addr) (set : I.IpSet) (r : Addr)
      → get_allocated_ips I G d ≡ some ips
      → I.build (taken I G p ips) ≡ some set
      → next_free (suc (left p.addr)) (contains_addr (taken I G p ips)) p.addr ≡ some r
      → allocate_peer_ip I G d p ≡ some (I.addr_string r)
  unfolding allocate_peer_ip
  allocate_peer_ip-eq d p ips set r e f g =
      let same : I.contains set ≡ contains_addr (taken I G p ips) =
        fun_ext λ a. I.build-contains (taken I G p ips) set a f in
      rw (e, allocate_peer_ip) (rw f (rw (same, g) refl))

  -- The allocator fails only if the table cannot be read or the set cannot be built. Otherwise it
  -- gives the text of the first address, from that of the prefix on, that is neither the network's
  -- first nor its last nor a peer's; unless it runs past the last address there is, no row of the
  -- table has that text.
  pub allocate_peer_ip_lem :
      (d : G.Db) (p : Prefix) (ips : List Addr) (set : I.IpSet)
      → get_allocated_ips I G d ≡ some ips
      → I.build (taken I G p ips) ≡ some set
      → (r : Addr) × (allocate_peer_ip I G d p ≡ some (I.addr_string r))
        × FirstFree (contains_addr (taken I G p ips)) p.addr r
        × (r ≢ (I.range_of_prefix p).0)
        × (r ≢ (I.range_of_prefix p).1)
        × ((r ≡ invalid) ⊎ All (λ (q : Peer). q.ip ≢ I.addr_string r) (G.rows d))
  allocate_peer_ip_lem d p ips set e f =
      let xs : List Addr = taken I G p ips in
      let (r, g, free) =
        next_free-FirstFree (suc (left p.addr)) (contains_addr xs) p.addr (I.build-valid xs set f)
          (omega arith) in
      let u : contains_addr xs r ≡ false = FirstFree-unused free in
      (
        r,
        allocate_peer_ip-eq d p ips set r e f g,
        free,
        not-contains ((I.range_of_prefix p).1 ∷ ips) _ r u,
        not-contains ips _ r (second (I.range_of_prefix p).0 (I.range_of_prefix p).1 r u),
        fresh r (third (I.range_of_prefix p).0 (I.range_of_prefix p).1 r u),
      )
    where
      second :
          (x y r : Addr) → contains_addr (x ∷ y ∷ ips) r ≡ false → contains_addr (y ∷ ips) r ≡ false
      second x y r u = ground arith

      third : (x y r : Addr) → contains_addr (x ∷ y ∷ ips) r ≡ false → contains_addr ips r ≡ false
      third x y r u = ground arith

      fresh :
          (r : Addr)
          → contains_addr ips r ≡ false
          → (r ≡ invalid) ⊎ All (λ (q : Peer). q.ip ≢ I.addr_string r) (G.rows d)
      fresh invalid u = inl refl
      fresh (v4 n) u = inr (allocated-fresh d ips (v4 n) (λ v. ground arith) e u)
      fresh (v6 n) u = inr (allocated-fresh d ips (v6 n) (λ v. ground arith) e u)

  pub allocate_peer_ip-fresh :
      (d : G.Db) (p : Prefix) (ip : String)
      → allocate_peer_ip I G d p ≡ some ip
      → ip ≢ I.addr_string invalid
      → All (λ (q : Peer). q.ip ≢ ip) (G.rows d)
  unfolding allocate_peer_ip
  allocate_peer_ip-fresh d p ip h v = go (get_allocated_ips I G d) refl
    where
      built :
          (ips : List Addr)
          → get_allocated_ips I G d ≡ some ips
          → (s : Option I.IpSet) → I.build (taken I G p ips) ≡ s
          → All (λ (q : Peer). q.ip ≢ ip) (G.rows d)
      built ips e none f = ground arith
      built ips e (some set) f =
          let (r, g, _, _, _, all) = allocate_peer_ip_lem d p ips set e f in
          let same : I.addr_string r ≡ ip = some-injective _ _ (sym g ∙ h) in
          subst (λ t. All (λ (q : Peer). q.ip ≢ t) (G.rows d)) same
            (elim all [ inl i ↦ absurd (v (sym same ∙ ap I.addr_string i)) | inr fresh ↦ fresh ])

      go :
          (o : Option (List Addr))
          → get_allocated_ips I G d ≡ o
          → All (λ (q : Peer). q.ip ≢ ip) (G.rows d)
      go none e = ground arith
      go (some ips) e = built ips e (I.build (taken I G p ips)) refl
