-- ===== src/Node/Pools.antt =====
-- node/queue.go: the pools of buffers, and the counters of the buffers in use.
pub mod Cleared
use zeronet.Prelude.{ℕ, zero, suc, List, [], ◌∷◌, Option, none, some, ◌+◌, ◌-◌, ◌%◌, ◌^◌}
use zeronet.Header.{reset}
use zeronet.Node.Buffer.{
  InboundBuffer, OutboundBuffer, clear, new_inbound_buffer, new_outbound_buffer,
}

-- A `sync.Pool`, and the counter that goes with it, which is a uint64.
pub record Pool (B : Type 0) : Type 0 where
  pub free : List B
  pub in_use : ℕ

abbrev pub empty_pool : {B : Type 0} → Pool B
empty_pool = record { free = []; in_use = 0 }

-- The buffer at a place, and the others.
abbrev pub pick : {B : Type 0} → ℕ → List B → Option (B × List B)
pick i [] = none
pick zero (b ∷ bs) = some (b, bs)
pick (suc i) (b ∷ bs) = elim (pick i bs) [ none ↦ none | some x ↦ some (x.0, b ∷ x.1) ]

-- `Get` of the pool gives any of the buffers that were put into it, or a new one: `choice` is the place of the
-- one that it gives.
unfoldable pub get : {B : Type 0} → B → (choice : Option ℕ) → Pool B → B × Pool B
get fresh choice p =
    let q = record p { in_use = (p.in_use + 1) % 2 ^ 64 } in
    elim choice [
      | none ↦ (fresh, q)
      | some i ↦ elim (pick i p.free) [
        | none ↦ (fresh, q)
        | some x ↦ (x.0, record q { free = x.1 })
      ]
    ]

-- The counter has `^uint64(0)` added to it.
unfoldable pub put : {B : Type 0} → (B → B) → B → Pool B → Pool B
put cleared b p = record { free = cleared b ∷ p.free; in_use = (p.in_use + (2 ^ 64 - 1)) % 2 ^ 64 }

unfoldable pub clear_inbound : InboundBuffer → InboundBuffer
clear_inbound b = record {
  raw = clear b.raw;
  packet = clear b.packet;
  raddr = none;
  size = 0;
  header = reset b.header;
  peer = none;
}

-- `clear` of a slice, which leaves what lies behind its length.
abbrev pub clear_first : ℕ → List ℕ → List ℕ
clear_first zero bs = bs
clear_first (suc n) [] = []
clear_first (suc n) (b ∷ bs) = 0 ∷ clear_first n bs

unfoldable pub clear_outbound : OutboundBuffer → OutboundBuffer
clear_outbound b = record {
  out = record b.out { backing = clear_first b.out.len b.out.backing };
  packet = clear b.packet;
  size = 0;
  header = reset b.header;
  peer = none;
}

abbrev pub get_inbound_buffer : Option ℕ → Pool InboundBuffer → InboundBuffer × Pool InboundBuffer
get_inbound_buffer choice p = get new_inbound_buffer choice p

abbrev pub put_inbound_buffer : InboundBuffer → Pool InboundBuffer → Pool InboundBuffer
put_inbound_buffer b p = put clear_inbound b p

abbrev pub get_outbound_buffer :
    Option ℕ → Pool OutboundBuffer → OutboundBuffer × Pool OutboundBuffer
get_outbound_buffer choice p = get new_outbound_buffer choice p

abbrev pub put_outbound_buffer : OutboundBuffer → Pool OutboundBuffer → Pool OutboundBuffer
put_outbound_buffer b p = put clear_outbound b p
