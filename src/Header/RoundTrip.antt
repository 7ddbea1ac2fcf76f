-- ===== src/Header/RoundTrip.antt =====
-- `Encode` and `Parse` undo one another, and `Parse` accepts nothing else.
use zeronet.Prelude.{◌∷◌, [], List, ℕ, ◌<◌, ◌≤◌, ◌≡◌, ◌^◌, ◌++◌, some, none, arith, All, ◌≢◌}
use zeronet.Header.{
  Header, Slice, elems, encoded, stamped, encode, parse, read_fields, be_bytes, ℕ, List, header_len,
  header_version, length, header_padding, be_value-bytes, IsByte, take, be_bytes-value,
  header_too_short, version_mismatch, padding_invalid,
}
use zeronet.Header.Encoding.{wire, elems-encode}

-- A header is read back from its sixteen bytes, whatever follows them.
pub parse-wire :
    (h : Header) (t index counter : ℕ) (rest : List ℕ)
    → index < 2 ^ 32
    → counter < 2 ^ 64
    → parse (some h) (wire header_version t index counter header_padding ++ rest)
      ≡ (some (stamped t index counter), none)
unfolding parse be_bytes
parse-wire h t index counter rest hi hc =
    rw
      (
        be_value-bytes 4 index hi,
        be_value-bytes 8 counter hc,
        be_value-bytes 2 header_padding (omega arith),
      )
      (ground arith)

-- A packet that starts with what `Encode` wrote is parsed to the header that was stamped: its type,
-- index and counter, of their widths, come back, and what follows them does not matter.
pub parse-encode :
    (h h' : Header) (b s : Slice) (t index counter : ℕ) (payload : List ℕ)
    → index < 2 ^ 32
    → counter < 2 ^ 64
    → (encode (some h) b t index counter).1 ≡ encoded s
    → parse (some h') (elems s ++ payload) ≡ (some (stamped t index counter), none)
parse-encode h h' b s t index counter payload hi hc e =
    rw (elems-encode h b s t index counter e) (parse-wire h' t index counter payload hi hc)

-- Sixteen bytes that read as the fields of a header are what is written for those fields.
wire-read_fields :
    (b : List ℕ)
    → All IsByte b
    → header_len ≤ length b
    → let h = read_fields b in
      wire h.version h.type h.sender_index h.counter h.padding ≡ take header_len b
wire-read_fields (a ∷ b ∷ c ∷ d ∷ e ∷ f ∷ g ∷ i ∷ j ∷ k ∷ l ∷ m ∷ o ∷ p ∷ q ∷ r ∷ xs) h lt = rw (
  be_bytes-value (c ∷ d ∷ e ∷ f ∷ []) (omega arith),
  be_bytes-value (g ∷ i ∷ j ∷ k ∷ l ∷ m ∷ o ∷ p ∷ []) (omega arith),
  be_bytes-value (q ∷ r ∷ []) (omega arith),
)
wire-read_fields xs h lt = absurd (omega arith)

-- `Parse` refuses a slice exactly when it is too short, or its version or its padding is not the
-- one that `Encode` writes, in this order; from the version on it has filled in the receiver.
pub parse_refusals :
    (h : Header) (b : List ℕ)
    → let h' = read_fields b in
      (length b < header_len → parse (some h) b ≡ (some h, some header_too_short))
      × (header_len ≤ length b
          → h'.version ≢ header_version
          → parse (some h) b ≡ (some h', some version_mismatch))
      × (header_len ≤ length b
          → h'.version ≡ header_version
          → h'.padding ≢ header_padding
          → parse (some h) b ≡ (some h', some padding_invalid))
      × (header_len ≤ length b
          → h'.version ≡ header_version
          → h'.padding ≡ header_padding
          → parse (some h) b ≡ (some h', none))
unfolding parse
parse_refusals h b = ground arith

-- An accepted packet starts with the sixteen bytes that `Encode` writes for the header that was read.
pub encode-parse :
    (h h' : Header) (b : List ℕ)
    → All IsByte b
    → parse (some h) b ≡ (some h', none)
    → take header_len b ≡ wire header_version h'.type h'.sender_index h'.counter header_padding
unfolding parse
encode-parse h h' b bytes e = ground (arith, wire-read_fields b bytes)
