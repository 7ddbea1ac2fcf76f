-- ===== src/Header/Tests.antt =====
-- A header of a data packet, encoded and parsed.
use zeronet.Prelude.{ℕ, [], ◌∷◌, some, none, List, ◌≡◌, refl, arith, ◌++◌}
use zeronet.Header.{
  Slice, encode, encoded, parse, encode_to_slice, Header, data_type, be_value, elems, stamped,
  header_version, header_padding,
}
use zeronet.Header.Encoding.{wire}
use zeronet.Header.RoundTrip.{parse-encode, encode-parse}

-- Twenty bytes of capacity.
abbrev room : Slice
room = record {
  backing = 9 ∷ 9 ∷ 9 ∷ 9 ∷ 9 ∷ 9 ∷ 9 ∷ 9 ∷ 9 ∷ 9 ∷ 9 ∷ 9 ∷ 9 ∷ 9 ∷ 9 ∷ 9 ∷ 9 ∷ 9 ∷ 9 ∷ 9 ∷ [];
  len = 20;
}

abbrev packet : List ℕ
packet = 1 ∷ 2 ∷ 0 ∷ 0 ∷ 1 ∷ 5 ∷ 0 ∷ 0 ∷ 0 ∷ 0 ∷ 0 ∷ 0 ∷ 2 ∷ 7 ∷ 0xfe ∷ 0xed ∷ []

abbrev stale : Header
stale = record { version = 0; type = 3; sender_index = 8; counter = 9; padding = 1 }

abbrev sent : Slice
sent = record { backing = packet ++ 9 ∷ 9 ∷ 9 ∷ 9 ∷ []; len = 16 }

sent_packet : (encode (some stale) room data_type 261 519).1 ≡ encoded sent
unfolding encode encode_to_slice
sent_packet = refl

parsed_packet : parse (some stale) packet ≡ (some (stamped data_type 261 519), none)
unfolding parse be_value
parsed_packet = refl

parse-encode_example :
    parse (some stale) (elems sent ++ 4 ∷ 5 ∷ []) ≡ (some (stamped data_type 261 519), none)
parse-encode_example =
    parse-encode stale stale room sent data_type 261 519 (4 ∷ 5 ∷ []) (omega arith) (omega arith)
      sent_packet

encode-parse_example : packet ≡ wire header_version data_type 261 519 header_padding
encode-parse_example =
    encode-parse stale (stamped data_type 261 519) packet (omega arith) parsed_packet
