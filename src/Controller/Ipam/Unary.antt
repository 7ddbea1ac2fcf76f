-- ===== src/Controller/Ipam/Unary.antt =====
-- The network library over unary text and lists: the laws that the allocator asks of it can hold.
use Prim.Native.Char.{code}
use zeronet.Prelude.{
  ℕ, zero, suc, ◌≡◌, refl, String, false, Option, some, none, List, arith, ap, ◌≢◌, if◌then◌else◌,
  ◌+◌, ◌==◌, ◌^◌, ◌-◌,
}
use zeronet.Controller.Ipam.{Addr, invalid, v4, v6, Netip, contains_addr, Prefix}

abbrev pub unary : ℕ → String
unary zero = ""
unary (suc n) = String.◌∷◌ "1" (unary n)

abbrev pub letters : String → ℕ
letters String.[] = 0
letters (String.◌∷◌ c s) = suc (letters s)

abbrev pub unary_addr : String → Option Addr
unary_addr String.[] = none
unary_addr (String.◌∷◌ c s) = if code c == 52 then some (v4 (letters s)) else some (v6 (letters s))

abbrev pub unary_text : Addr → String
unary_text invalid = ""
unary_text (v4 n) = String.◌∷◌ "4" (unary n)
unary_text (v6 n) = String.◌∷◌ "6" (unary n)

letters-unary : (n : ℕ) → letters (unary n) ≡ n
letters-unary zero = refl
letters-unary (suc n) = ap suc (letters-unary n)

pub unary_addr-text : (a : Addr) → a ≢ invalid → unary_addr (unary_text a) ≡ some a
unary_addr-text invalid h = absurd (h refl)
unary_addr-text (v4 n) h = ap (λ m. some (v4 m)) (letters-unary n)
unary_addr-text (v6 n) h = ap (λ m. some (v6 m)) (letters-unary n)

abbrev pub listed : List Addr → Option (List Addr)
listed xs = if contains_addr xs invalid then none else some xs

pub listed_lem :
    (xs s : List Addr) → listed xs ≡ some s → (s ≡ xs) × (contains_addr xs invalid ≡ false)
listed_lem xs s e = ground arith

-- The range of a prefix whose address is the first of its network.
abbrev pub last_of : Prefix → Addr
last_of p = elim p.addr [
  | invalid ↦ invalid
  | v4 n ↦ v4 (n + (2 ^ (32 - p.bits) - 1))
  | v6 n ↦ v6 (n + (2 ^ (128 - p.bits) - 1))
]

abbrev pub netip : Netip
netip = record {
  parse_addr = unary_addr;
  addr_string = unary_text;
  IpSet = List Addr;
  build = listed;
  contains = contains_addr;
  range_of_prefix = λ p. (p.addr, last_of p);
  parse-string = unary_addr-text;
  build-contains = λ xs s a e. ap (λ ys. contains_addr ys a) (listed_lem xs s e).0;
  build-valid = λ xs s e. (listed_lem xs s e).1;
}
