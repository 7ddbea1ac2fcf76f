-- ===== src/Node/Pools/Cleared.antt =====
-- No buffer that a pool gives carries anything of its last use, and the counter counts.
use zeronet.Prelude.{ℕ, List, [], ◌∷◌, Option, none, ◌≡◌, All, ◌+◌}
use zeronet.Header.{elems, Header, elems}
use zeronet.Node.Buffer.{InboundBuffer, OutboundBuffer}
use zeronet.Node.Pools.{Pool, get, put}

-- What is asked of a pool, one call after the other.
pub data PoolCall (B : Type 0) : Type 0 where
  gets : Option ℕ → PoolCall B
  puts : B → PoolCall B

-- The buffers that the calls got, and the pool after them.
unfoldable pub calls : {B : Type 0} → B → (B → B) → List (PoolCall B) → Pool B → List B × Pool B
calls fresh cleared [] p = ([], p)
calls fresh cleared (gets choice ∷ cs) p =
    let (b, q) = get fresh choice p in let (bs, r) = calls fresh cleared cs q in (b ∷ bs, r)
calls fresh cleared (puts b ∷ cs) p = calls fresh cleared cs (put cleared b p)

abbrev pub number_put : {B : Type 0} → List (PoolCall B) → ℕ
number_put [] = 0
number_put (gets k ∷ cs) = number_put cs
number_put (puts b ∷ cs) = 1 + number_put cs

-- Nothing is left of a packet, of where it came from, or of its header.
abbrev pub Zeros : List ℕ → Type 0
Zeros bs = All (λ b. b ≡ 0) bs

pub record IsClear (h : Header) (n : ℕ) (o : Option ℕ) : Type 0 where
  pub sender : h.sender_index ≡ 0
  pub type : h.type ≡ 0
  pub counter : h.counter ≡ 0
  pub size : n ≡ 0
  pub peer : o ≡ none

abbrev pub IsClearInbound : InboundBuffer → Type 0
IsClearInbound b = Zeros b.raw × Zeros b.packet × (b.raddr ≡ none) × IsClear b.header b.size b.peer

abbrev pub IsClearOutbound : OutboundBuffer → Type 0
IsClearOutbound b = Zeros (elems b.out) × Zeros b.packet × IsClear b.header b.size b.peer
