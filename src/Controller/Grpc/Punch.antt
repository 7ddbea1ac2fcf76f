-- ===== src/Controller/Grpc/Punch.antt =====
-- What a call of `Punch` brings to the peer that it names.
use mathlib.Core.Path.{subst}
use zeronet.Prelude.{ℕ, zero, suc, ◌≡◌, refl, String, some, List, [], ◌∷◌, arith}
use zeronet.Go.{Outcome, done, panics, blocks, Result, ok, err}
use zeronet.Go.SyncMap.{load, nat_key}
use zeronet.Controller.Types.{Peer}
use zeronet.Controller.Store.{Gorm}
use zeronet.Controller.Channels.{
  Controller, Channel, Update, channel_at, change_at, receive, send, peer_punch_request,
  punch_message,
}
use zeronet.Controller.Grpc.{Status, caller, punch}
use zeronet.Controller.Grpc.Endpoint.{MayAnnounce, caller-MayAnnounce}

channel_at-change_at :
    (n : ℕ) (f : Channel → Channel) (xs : List Channel) (x : Channel)
    → channel_at xs n ≡ some x
    → channel_at (change_at n f xs) n ≡ some (f x)
channel_at-change_at n f [] x h = ground arith
channel_at-change_at zero f (y ∷ xs) x h = ground arith
channel_at-change_at (suc n) f (y ∷ xs) x h = channel_at-change_at n f xs x h

send-receives :
    (n : ℕ) (u : Update) (xs ys : List Channel) (x : Channel)
    → channel_at xs n ≡ some x
    → send n u xs ≡ done ys
    → channel_at ys n ≡ some (receive u x)
unfolding send
send-receives n u xs ys x a h =
    let same : change_at n (receive u) xs ≡ ys = ground arith in
    subst (λ zs. channel_at zs n ≡ some (receive u x)) same
      (channel_at-change_at n (receive u) xs x a)

module _ (G : Gorm) where
  peer_punch_request-receives :
      (id n : ℕ) (endpoint : String) (c c' : Controller G) (p : Peer) (x : Channel)
      → G.first_id c.db id ≡ some p
      → load id c.peer_channels ≡ some n
      → channel_at c.channels n ≡ some x
      → peer_punch_request G id endpoint c ≡ done c'
      → channel_at c'.channels n ≡ some (receive (punch_message endpoint) x)
  unfolding peer_punch_request
  peer_punch_request-receives id n endpoint c c' p x f l a h =
      go (send n (punch_message endpoint) c.channels) refl
    where
      go :
          (o : Outcome (List Channel))
          → send n (punch_message endpoint) c.channels ≡ o
          → channel_at c'.channels n ≡ some (receive (punch_message endpoint) x)
      go (panics e) u = ground arith
      go blocks u = ground arith
      go (done ys) u =
          let same : ys ≡ c'.channels = ground arith in
          subst (λ zs. channel_at zs n ≡ some (receive (punch_message endpoint) x)) same
            (send-receives n (punch_message endpoint) c.channels ys x a u)

  -- When a call of `Punch` succeeds that names a peer in the table which has a channel, then the call
  -- comes from a machine that may announce an endpoint, and the endpoint is what the channel received
  -- last.
  pub punch-receives :
      (now : ℕ) (machine : String) (target : ℕ) (endpoint : String) (c c' : Controller G) (p : Peer)
      (n : ℕ) (x : Channel)
      → G.first_id c.db target ≡ some p
      → load target c.peer_channels ≡ some n
      → channel_at c.channels n ≡ some x
      → punch G now machine target endpoint c ≡ done (c', ok tt)
      → ((peer : Peer) × MayAnnounce G now machine endpoint c.db peer)
        × (channel_at c'.channels n ≡ some (receive (punch_message endpoint) x))
  unfolding punch
  punch-receives now machine target endpoint c c' p n x f l a h =
      go (caller G now machine endpoint c.db) refl
    where
      sent :
          (o : Outcome (Controller G))
          → peer_punch_request G target endpoint c ≡ o
          → (peer : Peer) → caller G now machine endpoint c.db ≡ ok peer
          → channel_at c'.channels n ≡ some (receive (punch_message endpoint) x)
      sent (panics e) v peer u = ground arith
      sent blocks v peer u = ground arith
      sent (done d) v peer u =
          let same : d ≡ c' = ground arith in
          subst
            (λ (z : Controller G).
              channel_at z.channels n ≡ some (receive (punch_message endpoint) x))
            same (peer_punch_request-receives target n endpoint c d p x f l a v)

      go :
          (r : Result Status Peer)
          → caller G now machine endpoint c.db ≡ r
          → ((peer : Peer) × MayAnnounce G now machine endpoint c.db peer)
            × (channel_at c'.channels n ≡ some (receive (punch_message endpoint) x))
      go (err s) u = ground arith
      go (ok peer) u = (
        (peer, caller-MayAnnounce G now machine endpoint c.db peer u),
        sent (peer_punch_request G target endpoint c) refl peer u,
      )
