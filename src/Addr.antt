-- ===== src/Addr.antt =====
-- The addresses and prefixes of net/netip, by their numbers.
use mathlib.Core.Path.{subst}
use zeronet.Prelude.{ℕ, ◌≡◌, refl, Bool, true, false, ◌==◌, arith, ◌↔◌, ap}

-- An IPv4 or IPv6 address without a zone, or the zero `netip.Addr`, which is neither.
pub data Addr : Type 0 where
  invalid : Addr
  v4 : ℕ → Addr
  v6 : ℕ → Addr

abbrev pub addr_eq : Addr → Addr → Bool
addr_eq invalid invalid = true
addr_eq (v4 m) (v4 n) = m == n
addr_eq (v6 m) (v6 n) = m == n
addr_eq _ _ = false

pub record Prefix : Type 0 where
  pub addr : Addr
  pub bits : ℕ

pub addr_eq_self : (a : Addr) → addr_eq a a ≡ true
addr_eq_self invalid = refl
addr_eq_self (v4 n) = ground arith
addr_eq_self (v6 n) = ground arith

pub addr_eq_iff : (a b : Addr) → (addr_eq a b ≡ true) ↔ (a ≡ b)
addr_eq_iff a b = (same a b, λ e. subst (λ c. addr_eq a c ≡ true) e (addr_eq_self a))
  where
    same : (a b : Addr) → addr_eq a b ≡ true → a ≡ b
    same invalid invalid h = refl
    same (v4 m) (v4 n) h = ap v4 (ground arith)
    same (v6 m) (v6 n) h = ap v6 (ground arith)
    same invalid (v4 n) h = cc
    same invalid (v6 n) h = cc
    same (v4 m) invalid h = cc
    same (v4 m) (v6 n) h = cc
    same (v6 m) invalid h = cc
    same (v6 m) (v4 n) h = cc
