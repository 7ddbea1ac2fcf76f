-- ===== src/Header.antt =====
-- pkg/header/header.go: the 16-byte header in front of every packet. A pointer receiver that may be
-- nil is an `Option`; a method that writes through it returns the header that it leaves behind.
mod Bytes
pub mod Encoding
pub mod RoundTrip
mod Tests
use zeronet.Prelude.{
  ℕ, ◌+◌, Bool, Option, none, some, List, take, drop, length, ltb, ◌==◌, if◌then◌else◌, not, get_or,
  ◌∷◌, ◌-◌, [],
}
pub use Bytes.{IsByte, be_value-bytes, be_bytes-value}
unfoldable pub use Bytes.{be_bytes, be_value, write}

abbrev pub header_version : ℕ
header_version = 1

abbrev pub header_len : ℕ
header_len = 16

abbrev pub header_padding : ℕ
header_padding = 0xfeed

-- The message types, a byte each.
abbrev pub none_type : ℕ
none_type = 0

abbrev pub handshake_type : ℕ
handshake_type = 1

abbrev pub data_type : ℕ
data_type = 2

abbrev pub reset_type : ℕ
reset_type = 3

abbrev pub rekey_type : ℕ
rekey_type = 4

abbrev pub close_type : ℕ
close_type = 5

abbrev pub discovery_type : ℕ
discovery_type = 6

abbrev pub punch_type : ℕ
punch_type = 0xff

pub record Header : Type 0 where
  pub version : ℕ  -- uint8
  pub type : ℕ  -- uint8
  pub sender_index : ℕ  -- uint32
  pub counter : ℕ  -- uint64
  pub padding : ℕ  -- uint16

-- A Go slice: what it reaches up to its capacity, and its length.
pub record Slice : Type 0 where
  pub backing : List ℕ
  pub len : ℕ

abbrev pub elems : Slice → List ℕ
elems b = take b.len b.backing

pub data Error : Type 0 where
  header_nil capacity_too_small header_too_short version_mismatch padding_invalid : Error

pub data Encoded : Type 0 where
  encoded : Slice → Encoded
  refused : Error → Encoded

-- `NewHeader`: the zero value.
unfoldable pub new_header : Header
new_header = record { version = 0; type = 0; sender_index = 0; counter = 0; padding = 0 }

unfoldable pub reset : Header → Header
reset h = record {
  version = header_version;
  type = 0;
  sender_index = 0;
  counter = 0;
  padding = header_padding;
}

-- `binary.BigEndian.PutUint32(b[2:6], …)` and its like write through the slice.
unfoldable pub encode_to_slice : Slice → Header → Slice
unfolding write be_bytes
encode_to_slice b h =
    let version = write 0 (h.version ∷ []) b.backing in
    let type = write 1 (h.type ∷ []) version in
    let index = write 2 (be_bytes 4 h.sender_index) type in
    let counter = write 6 (be_bytes 8 h.counter) index in
    record { backing = write 14 (be_bytes 2 h.padding) counter; len = header_len }

abbrev pub stamped : ℕ → ℕ → ℕ → Header
stamped t index counter = record {
  version = header_version;
  type = t;
  sender_index = index;
  counter = counter;
  padding = header_padding;
}

unfoldable pub encode : Option Header → Slice → ℕ → ℕ → ℕ → Option Header × Encoded
unfolding encode_to_slice
encode none b t index counter = (none, refused header_nil)
encode (some h) b t index counter =
    if ltb (length b.backing) header_len
    then (some h, refused capacity_too_small)
    else (some (stamped t index counter), encoded (encode_to_slice b (stamped t index counter)))

-- `b[i:j]` for i ≤ j ≤ len(b).
abbrev pub slice : List ℕ → ℕ → ℕ → List ℕ
slice b i j = take (j - i) (drop i b)

abbrev pub read_fields : List ℕ → Header
read_fields b = record {
  version = get_or b 0 0;
  type = get_or b 1 0;
  sender_index = be_value (slice b 2 6);
  counter = be_value (slice b 6 14);
  padding = be_value (slice b 14 16);
}

-- The fields are assigned before they are checked, so a refused header is left filled in.
unfoldable pub parse : Option Header → List ℕ → Option Header × Option Error
parse none b = (none, some header_nil)
parse (some h) b =
    if ltb (length b) header_len
    then (some h, some header_too_short)
    else let h' = read_fields b in
      if not (h'.version == header_version)
      then (some h', some version_mismatch)
      else if not (h'.padding == header_padding)
      then (some h', some padding_invalid)
      else (some h', none)
