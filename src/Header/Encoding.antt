-- ===== src/Header/Encoding.antt =====
-- What `Encode` writes, on every branch.
use zeronet.Prelude.{
  ℕ, ◌≤◌, ◌≡◌, refl, List, ◌∷◌, ◌++◌, arith, length, drop, ◌<◌, Bool-cases, inl, inr,
}
use zeronet.Header.{
  Header, encode_to_slice, be_bytes, header_len, Slice, encode, none, refused, header_nil, some,
  capacity_too_small, stamped, encoded, elems, header_version, header_padding, ltb,
}

-- The sixteen bytes of a header.
abbrev pub wire : ℕ → ℕ → ℕ → ℕ → ℕ → List ℕ
wire version t index counter padding =
    version ∷ t ∷ be_bytes 4 index ++ be_bytes 8 counter ++ be_bytes 2 padding

pub encode_to_slice_lem :
    (xs : List ℕ) (n : ℕ) (h : Header)
    → header_len ≤ length xs
    → encode_to_slice (record { backing = xs; len = n }) h ≡ record {
      backing = wire h.version h.type h.sender_index h.counter h.padding ++ drop header_len xs;
      len = header_len;
    }
unfolding encode_to_slice be_bytes
encode_to_slice_lem (a ∷ b ∷ c ∷ d ∷ e ∷ f ∷ g ∷ i ∷ j ∷ k ∷ l ∷ m ∷ o ∷ p ∷ q ∷ r ∷ xs) n h lt =
    refl
encode_to_slice_lem xs n h lt = absurd (omega arith)

module _ (h : Header) (b : Slice) (t index counter : ℕ) where
  -- With room for a header, `Encode` stamps the receiver and writes its sixteen bytes over the
  -- start of the slice, whose rest stays; with less it changes nothing.
  pub encode_lem :
      (encode none b t index counter ≡ (none, refused header_nil))
      × (length b.backing < header_len
          → encode (some h) b t index counter ≡ (some h, refused capacity_too_small))
      × (header_len ≤ length b.backing
          → (s : Slice) × (encode (some h) b t index counter
              ≡ (some (stamped t index counter), encoded s))
            × (elems s ≡ wire header_version t index counter header_padding)
            × (drop header_len s.backing ≡ drop header_len b.backing))
  unfolding encode be_bytes
  encode_lem = (
    refl,
    λ lt. ground arith,
    λ le. (
      record {
        backing = wire header_version t index counter header_padding ++ drop header_len b.backing;
        len = header_len;
      },
      ground (arith, encode_to_slice_lem b.backing b.len (stamped t index counter)),
      refl,
      refl,
    ),
  )

-- A slice that `Encode` returns holds the header's sixteen bytes.
pub elems-encode :
    (h : Header) (b s : Slice) (t index counter : ℕ)
    → (encode (some h) b t index counter).1 ≡ encoded s
    → elems s ≡ wire header_version t index counter header_padding
unfolding encode be_bytes
elems-encode h b s t index counter e = elim (Bool-cases (ltb (length b.backing) header_len)) [
  | inl short ↦ absurd (let f = rw short at e in cc)
  | inr long ↦
      let f =
        rw (long, encode_to_slice_lem b.backing b.len (stamped t index counter) (ground arith)) at
          e in
      let s' : Slice = record {
        backing = wire header_version t index counter header_padding ++ drop header_len b.backing;
        len = header_len;
      } in
      let g : s' ≡ s = cc in rw (← g) refl
]
