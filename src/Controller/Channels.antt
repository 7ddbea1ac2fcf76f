-- ===== src/Controller/Channels.antt =====
-- controller/peer_updates.go: the channels over which the update streams of the peers are fed, and the
-- events that are sent to them. The channels are numbered as they are made.
use zeronet.Prelude.{
  length, ℕ, zero, suc, String, Bool, true, false, Option, some, none, List, [], ◌∷◌, ◌++◌, ◌==◌,
  if◌then◌else◌,
}
use zeronet.Go.{Outcome, done, panics, blocks, ◌>>=◌, closed_channel, nil_pointer}
use zeronet.Go.SyncMap.{load, store, delete, nat_key}
use zeronet.Controller.Types.{Peer, ProtoPeer, proto}
use zeronet.Controller.Store.{Gorm}

pub data UpdateType : Type 0 where
  init connect disconnect punch logout : UpdateType

-- `ctrlv1.PeerList` and `ctrlv1.UpdateResponse`; `none` is a message that is not set.
pub record PeerList : Type 0 where
  pub peers : List ProtoPeer
  pub count : ℕ

pub record Update : Type 0 where
  pub update_type : UpdateType
  pub peer_list : Option PeerList
  pub punch_endpoint : String

-- A channel without a buffer: a send waits until the stream of the channel receives.
pub record Channel : Type 0 where
  pub closed : Bool
  pub receiving : Bool
  pub received : List Update

-- The prefix of the network, which stays the same, stands in `GrpcServer`. `cleanups` are the peers
-- whose channel is to be deleted ten seconds after they were logged out.
pub record Controller (G : Gorm) : Type 0 where
  pub db : G.Db
  pub peer_channels : List (ℕ × ℕ)
  pub channels : List Channel
  pub cleanups : List ℕ

abbrev pub channel_at : List Channel → ℕ → Option Channel
channel_at [] n = none
channel_at (x ∷ xs) zero = some x
channel_at (x ∷ xs) (suc n) = channel_at xs n

abbrev pub change_at : ℕ → (Channel → Channel) → List Channel → List Channel
change_at n f [] = []
change_at zero f (x ∷ xs) = f x ∷ xs
change_at (suc n) f (x ∷ xs) = x ∷ change_at n f xs

abbrev pub receive : Update → Channel → Channel
receive u x = record x { received = x.received ++ u ∷ [] }

abbrev pub shut : Channel → Channel
shut x = record x { closed = true }

abbrev pub open_channel : Channel
open_channel = record { closed = false; receiving = false; received = [] }

-- `pc <- update`
unfoldable pub send : ℕ → Update → List Channel → Outcome (List Channel)
send n u xs = elim (channel_at xs n) [
  | none ↦ blocks
  | some x ↦
      if x.closed
      then panics closed_channel
      else (if x.receiving then done (change_at n (receive u) xs) else blocks)
]

-- `close(pc)`; there is no channel with a number that was not given out, like the nil channel.
unfoldable pub close : ℕ → List Channel → Outcome (List Channel)
close n xs = elim (channel_at xs n) [
  | none ↦ panics nil_pointer
  | some x ↦ if x.closed then panics closed_channel else done (change_at n shut xs)
]

-- The walk over the map that sends an update to every peer but one.
unfoldable pub broadcast : ℕ → Update → List (ℕ × ℕ) → List Channel → Outcome (List Channel)
broadcast id u [] xs = done xs
broadcast id u ((k, n) ∷ m) xs =
    (if k == id then done xs else send n u xs) >>= λ ys. broadcast id u m ys

-- The peers but one, as messages.
abbrev pub other_peers : ℕ → List Peer → List ProtoPeer
other_peers id [] = []
other_peers id (p ∷ ps) =
    let rest = other_peers id ps in if p.id == id then rest else proto p ∷ rest

abbrev pub announcement : UpdateType → Peer → Update
announcement t p = record {
  update_type = t;
  peer_list = some (record { peers = proto p ∷ []; count = 1 });
  punch_endpoint = "";
}

abbrev pub punch_message : String → Update
punch_message endpoint = record { update_type = punch; peer_list = none; punch_endpoint = endpoint }

module _ (G : Gorm) where
  unfoldable pub get_peer_update_channel : ℕ → Controller G → Controller G × ℕ
  get_peer_update_channel id c =
      let n = length c.channels in
      (
        record c {
          peer_channels = store id n c.peer_channels;
          channels = c.channels ++ open_channel ∷ [];
        },
        n,
      )

  unfoldable pub delete_peer_update_channel : ℕ → Controller G → Outcome (Controller G)
  delete_peer_update_channel id c = elim (load id c.peer_channels) [
    | none ↦ done c
    | some n ↦ close n c.channels >>= λ xs.
        done (record c { peer_channels = delete id c.peer_channels; channels = xs })
  ]

  -- The walk over the map that closes every channel, and deletes it.
  abbrev pub close_each : List (ℕ × ℕ) → List Channel → Outcome (List Channel)
  close_each [] xs = done xs
  close_each ((k, n) ∷ m) xs = close n xs >>= λ ys. close_each m ys

  unfoldable pub close_all_peer_update_channels : Controller G → Outcome (Controller G)
  close_all_peer_update_channels c = close_each c.peer_channels c.channels >>= λ xs.
      done (record c { peer_channels = []; channels = xs })

  unfoldable pub get_connected_peers : ℕ → Controller G → Option PeerList
  get_connected_peers id c = elim (G.find_connected c.db) [
    | none ↦ none
    | some ps ↦ let list = other_peers id ps in some (record { peers = list; count = length list })
  ]

  -- `PeerConnectedEvent` and `PeerDisconnectedEvent`, which differ in the type of their update.
  unfoldable pub announce : UpdateType → ℕ → Controller G → Outcome (Controller G)
  announce t id c = elim (G.first_id c.db id) [
    | none ↦ done c
    | some p ↦ broadcast id (announcement t p) c.peer_channels c.channels >>= λ xs.
        done (record c { channels = xs })
  ]

  unfoldable pub peer_connected_event : ℕ → Controller G → Outcome (Controller G)
  peer_connected_event id c = announce connect id c

  unfoldable pub peer_disconnected_event : ℕ → Controller G → Outcome (Controller G)
  peer_disconnected_event id c = announce disconnect id c

  abbrev deliver_update : ℕ → Update → Controller G → Outcome (Controller G)
  deliver_update id u c = elim (load id c.peer_channels) [
    | none ↦ done c
    | some n ↦ send n u c.channels >>= λ xs. done (record c { channels = xs })
  ]

  unfoldable pub peer_forced_logout_event : ℕ → Controller G → Outcome (Controller G)
  peer_forced_logout_event id c =
      deliver_update id (record { update_type = logout; peer_list = none; punch_endpoint = "" }) c

  unfoldable pub peer_punch_request : ℕ → String → Controller G → Outcome (Controller G)
  peer_punch_request id endpoint c = elim (G.first_id c.db id) [
    | none ↦ done c
    | some p ↦ deliver_update id (punch_message endpoint) c
  ]
