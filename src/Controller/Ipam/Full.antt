-- ===== src/Controller/Ipam/Full.antt =====
-- What the allocator does once a network of IPv4 is full.
use mathlib.Core.Bool.{false≢true}
use mathlib.Core.Path.{subst}
use zeronet.Prelude.{
  ℕ, zero, suc, ◌<◌, ◌≤◌, ◌≡◌, Bool, true, some, List, arith, Bool-cases, ◌+◌, ◌^◌, ltb, inl, inr,
  sym, ◌∙◌,
}
use zeronet.Controller.Ipam.Free.{FirstFree, here, later, allocate_peer_ip_lem}
use zeronet.Controller.Store.{Gorm}
use zeronet.Controller.Ipam.{
  Addr, invalid, v4, next, Netip, Prefix, allocate_peer_ip, taken, contains_addr, get_allocated_ips,
}

-- Past the last address of a network of IPv4 that `m` follows: no address, or one from `m` on.
pub data Outside (m : ℕ) : Addr → Type 0 where
  none_left : Outside m invalid
  beyond : {n : ℕ} → m ≤ n → Outside m (v4 n)

next-v4_inside : (n : ℕ) → n + 1 < 2 ^ 32 → next (v4 n) ≡ v4 (n + 1)
unfolding next
next-v4_inside n h = ground arith

next-v4_last : (n : ℕ) → 2 ^ 32 ≤ n + 1 → next (v4 n) ≡ invalid
unfolding next
next-v4_last n h = ground arith

Outside-next : {m : ℕ} {a : Addr} → Outside m a → Outside m (next a)
unfolding next
Outside-next none_left = none_left
Outside-next (beyond {n} h) = elim (Bool-cases (ltb (n + 1) (2 ^ 32))) [
  | inl e ↦ rw e (beyond (omega arith))
  | inr e ↦ rw e none_left
]

Outside-FirstFree :
    {used : Addr → Bool} {m : ℕ} {a r : Addr} → Outside m a → FirstFree used a r → Outside m r
Outside-FirstFree o (here u) = o
Outside-FirstFree o (later u f) = Outside-FirstFree (Outside-next o) f

full-Outside :
    {used : Addr → Bool} {r : Addr} (n a : ℕ)
    → a + n ≤ 2 ^ 32
    → ((k : ℕ) → k < n → used (v4 (a + k)) ≡ true)
    → FirstFree used (v4 a) r
    → Outside (a + n) r
full-Outside {used} {r} zero a b h f = Outside-FirstFree (beyond (omega arith)) f
full-Outside {used} (suc n) a b h (here u) =
    absurd (false≢true (sym u ∙ subst (λ m. used (v4 m) ≡ true) (omega arith) (h 0 (omega arith))))
full-Outside {used} {r} (suc n) a b h (later u f) = elim (Bool-cases (ltb (a + 1) (2 ^ 32))) [
  | inl e ↦
      subst (λ k. Outside k r) (omega arith)
        (full-Outside n (a + 1) (omega arith)
          (λ k l. subst (λ m. used (v4 m) ≡ true) (omega arith) (h (suc k) (omega arith)))
          (subst (λ x. FirstFree used x r) (next-v4_inside a (ground arith)) f))
  | inr e ↦
      Outside-FirstFree none_left
        (subst (λ x. FirstFree used x r) (next-v4_last a (ground arith)) f)
]

module _ (I : Netip) (G : Gorm) where
  -- Once the `n` addresses of a network from that of the prefix on are used up, allocation does not
  -- fail: it gives the text of an address past them, or of the zero address when there is none.
  pub allocate_peer_ip-full :
      (d : G.Db) (p : Prefix) (ips : List Addr) (set : I.IpSet) (a n : ℕ)
      → get_allocated_ips I G d ≡ some ips
      → I.build (taken I G p ips) ≡ some set
      → p.addr ≡ v4 a
      → a + n ≤ 2 ^ 32
      → ((k : ℕ) → k < n → contains_addr (taken I G p ips) (v4 (a + k)) ≡ true)
      → (r : Addr) × (allocate_peer_ip I G d p ≡ some (I.addr_string r)) × Outside (a + n) r
  allocate_peer_ip-full d p ips set a n e f at b used =
      let (r, g, free, _, _, _) = allocate_peer_ip_lem I G d p ips set e f in
      (
        r,
        g,
        full-Outside n a b used
            (subst (λ x. FirstFree (contains_addr (taken I G p ips)) x r) at free),
      )
