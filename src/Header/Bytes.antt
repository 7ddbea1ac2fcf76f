-- ===== src/Header/Bytes.antt =====
-- Bytes, and the standard library's `binary.BigEndian`.
use mathlib.Core.List.{reverse-reverse, reverse-cons}
use native.Mathlib.Nat.{pow-suc}
use zeronet.Prelude.{
  ℕ, zero, suc, ◌+◌, ◌*◌, ◌/◌, ◌%◌, ◌^◌, ◌<◌, ◌≡◌, refl, ap, List, [], ◌∷◌, reverse, arith, length,
  length-append, All, All-append,
}

abbrev pub IsByte : ℕ → Type 0
IsByte b = b < 256

-- The low `w` bytes of `v`, least significant first.
le_bytes : ℕ → ℕ → List ℕ
le_bytes zero v = []
le_bytes (suc w) v = (v % 256) ∷ le_bytes w (v / 256)

le_value : List ℕ → ℕ
le_value [] = 0
le_value (b ∷ bs) = b + 256 * le_value bs

-- `PutUint16`, `PutUint32`, `PutUint64` write these bytes, for w = 2, 4, 8.
unfoldable pub be_bytes : ℕ → ℕ → List ℕ
unfolding le_bytes
be_bytes w v = reverse (le_bytes w v)

-- `Uint16`, `Uint32`, `Uint64` of a slice of that many bytes.
unfoldable pub be_value : List ℕ → ℕ
unfolding le_value
be_value bs = le_value (reverse bs)

-- Bytes laid over a slice from an offset on; what lies past its end is dropped.
unfoldable pub write : ℕ → List ℕ → List ℕ → List ℕ
write zero [] xs = xs
write zero (b ∷ bs) [] = []
write zero (b ∷ bs) (x ∷ xs) = b ∷ write zero bs xs
write (suc off) bs [] = []
write (suc off) bs (x ∷ xs) = x ∷ write off bs xs

le_value-bytes : (w v : ℕ) → v < 256 ^ w → le_value (le_bytes w v) ≡ v
unfolding le_value le_bytes
le_value-bytes zero v h = omega arith
le_value-bytes (suc w) v h =
    omega (arith, pow-suc 256 w, le_value-bytes w (v / 256) (omega (arith, pow-suc 256 w)))

le_bytes-value : (bs : List ℕ) → All IsByte bs → le_bytes (length bs) (le_value bs) ≡ bs
unfolding le_value le_bytes
le_bytes-value [] h = refl
le_bytes-value (b ∷ bs) h =
    let (p, q) : ((b + 256 * le_value bs) % 256 ≡ b)
        × ((b + 256 * le_value bs) / 256 ≡ le_value bs) =
      omega (arith, h.0) in
    rw (p, q) (ap (◌∷◌ b) (le_bytes-value bs h.1))

All-reverse : (bs : List ℕ) → All IsByte bs → All IsByte (reverse bs)
All-reverse [] h = tt
All-reverse (b ∷ bs) h =
    rw (reverse-cons b bs) (All-append IsByte (reverse bs) (b ∷ []) (All-reverse bs h.1) (h.0, tt))

length-reverse : (bs : List ℕ) → length (reverse bs) ≡ length bs
length-reverse [] = refl
length-reverse (b ∷ bs) =
    omega
      (arith, ap length (reverse-cons b bs), length-append (reverse bs) (b ∷ []), length-reverse bs)

-- Reading the bytes of a number that fits gives it back.
pub be_value-bytes : (w v : ℕ) → v < 256 ^ w → be_value (be_bytes w v) ≡ v
unfolding be_value be_bytes
be_value-bytes w v h = rw (reverse-reverse (le_bytes w v)) (le_value-bytes w v h)

-- Writing the number read from some bytes gives them back.
pub be_bytes-value : (bs : List ℕ) → All IsByte bs → be_bytes (length bs) (be_value bs) ≡ bs
unfolding be_value be_bytes
be_bytes-value bs h =
    rw (← length-reverse bs, le_bytes-value (reverse bs) (All-reverse bs h)) (reverse-reverse bs)
