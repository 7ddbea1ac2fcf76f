-- ===== src/Controller/Ipam.antt =====
-- controller/db/ipam.go: the next free address of the network. `netip.Addr` is modelled by its
-- numbers; its text form, and the sets and ranges of go4.org/netipx, are parameters.
pub mod Free
pub mod Full
pub mod Unary
use mathlib.Core.Option
use zeronet.Prelude.{
  ℕ, zero, suc, ◌+◌, ◌-◌, ◌^◌, ◌<◌, ◌≡◌, refl, String, Bool, true, false, Option, some, none, List,
  [], ◌∷◌, ltb, ◌==◌, if◌then◌else◌, ◌||◌, ◌≢◌, arith, Bool-cases, inl, inr,
}
pub use zeronet.Addr.{Addr, invalid, v4, v6, addr_eq, Prefix}
use zeronet.Controller.Store.{Gorm}

-- `Addr.Next`: past the last address of a family comes the zero `Addr`.
unfoldable pub next : Addr → Addr
next invalid = invalid
next (v4 n) = if ltb (n + 1) (2 ^ 32) then v4 (n + 1) else invalid
next (v6 n) = if ltb (n + 1) (2 ^ 128) then v6 (n + 1) else invalid

-- A bound on the addresses that are left, this one included.
abbrev pub left : Addr → ℕ
left invalid = 0
left (v4 n) = 2 ^ 32 - n + 1
left (v6 n) = 2 ^ 128 - n + 1

abbrev pub contains_addr : List Addr → Addr → Bool
contains_addr [] a = false
contains_addr (x ∷ xs) a = addr_eq x a || contains_addr xs a

-- What the allocator calls of other packages: `ParseAddr` and `Addr.String`, which undo one another
-- on valid addresses; `IPSetBuilder`, whose set contains what was added; `RangeOfPrefix`.
pub record Netip : Type 1 where
  pub parse_addr : String → Option Addr
  pub addr_string : Addr → String
  pub IpSet : Type 0
  pub build : List Addr → Option IpSet
  pub contains : IpSet → Addr → Bool
  pub range_of_prefix : Prefix → Addr × Addr
  pub parse-string : (a : Addr) → a ≢ invalid → parse_addr (addr_string a) ≡ some a
  pub build-contains :
      (xs : List Addr) (s : IpSet) (a : Addr)
      → build xs ≡ some s
      → contains s a ≡ contains_addr xs a
  pub build-valid :
      (xs : List Addr) (s : IpSet) → build xs ≡ some s → contains_addr xs invalid ≡ false

-- The loop of `AllocatePeerIP`. With more fuel than there are addresses left it always ends.
unfoldable pub next_free : ℕ → (Addr → Bool) → Addr → Option Addr
next_free zero used a = none
next_free (suc fuel) used a =
    let rest = next_free fuel used (next a) in if used a then rest else some a

module _ (I : Netip) where
  -- An address that does not parse is logged and left out.
  unfoldable pub parse_all : List String → List Addr
  parse_all [] = []
  parse_all (t ∷ ts) =
      let rest = parse_all ts in elim (I.parse_addr t) [ none ↦ rest | some a ↦ a ∷ rest ]

  module _ (G : Gorm) where
    unfoldable pub get_allocated_ips : G.Db → Option (List Addr)
    get_allocated_ips d = Option.map parse_all (G.pluck_ip d)

    -- The addresses that are taken: the first and the last of the network, and those of the peers.
    abbrev pub taken : Prefix → List Addr → List Addr
    taken p ips = (I.range_of_prefix p).0 ∷ (I.range_of_prefix p).1 ∷ ips

    unfoldable pub allocate_peer_ip : G.Db → Prefix → Option String
    allocate_peer_ip d p = elim (get_allocated_ips d) [
      | none ↦ none
      | some ips ↦ elim (I.build (taken p ips)) [
        | none ↦ none
        | some set ↦
            Option.map I.addr_string (next_free (suc (left p.addr)) (I.contains set) p.addr)
      ]
    ]
