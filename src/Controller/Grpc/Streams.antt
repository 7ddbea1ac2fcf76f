-- ===== src/Controller/Grpc/Streams.antt =====
-- `UpdateStream` of controller/grpc_v1.go with the events of controller/peer_updates.go, for several streams at
-- once: each call goes from one use of the shared channels to the next in one step, in any order.
pub mod Flags
pub mod Effects
pub mod Owned
pub mod Alone
pub mod Opens
pub mod Stuck
use zeronet.Prelude.{
  ℕ, List, [], ◌∷◌, ◌++◌, String, Bool, true, false, Option, none, some, entry, change, ◌==◌,
  if◌then◌else◌,
}
use zeronet.Go.{Outcome, done, blocks, ◌>>=◌, Result, ok, err, panics}
use zeronet.Controller.Store.{Gorm}
use zeronet.Controller.Channels.{
  Controller, Channel, Update, UpdateType, connect, disconnect, announcement, send, change_at,
  channel_at, get_peer_update_channel, delete_peer_update_channel, get_connected_peers,
}
use zeronet.Controller.Grpc.Stream.{Stream, set_connected, admit, receiving}

-- Where a call of `UpdateStream` is: before the first event, in the walk over the map that announces its peer, with the channels that
-- the walk has not come to; in the loop; before the last event; in the walk that announces its end; or returned.
pub data Place : Type 0 where
  announces departs : List (ℕ × ℕ) → Update → Place
  begins receives leaves returned : Place

pub record Call : Type 0 where
  pub stream : Stream
  pub place : Place

pub record Server (G : Gorm) : Type 0 where
  pub controller : Controller G
  pub calls : List Call

-- A client calls; the call with a number goes on, with whether its client takes the first list; the client of a
-- call goes away.
pub data StreamEvent : Type 0 where
  calls_in : (now : ℕ) → String → StreamEvent
  goes_on : (now number : ℕ) → (sent : Bool) → StreamEvent
  hangs_up : (now number : ℕ) → StreamEvent

-- The send to the first channel of a walk, which leaves out the peer itself.
abbrev pub visit : ℕ → ℕ × ℕ → Update → List Channel → Outcome (List Channel)
visit id (k, n) u xs = if k == id then done xs else send n u xs

module _ (G : Gorm) where
  -- The peer is looked up, and the walk begins with the entries that the map has then.
  abbrev pub walk : (List (ℕ × ℕ) → Update → Place) → UpdateType → ℕ → Controller G → Place
  walk place t id c = elim (G.first_id c.db id) [
    | none ↦ place [] (record { update_type = t; peer_list = none; punch_endpoint = "" })
    | some p ↦ place c.peer_channels (announcement t p)
  ]

  -- The call leaves its loop: what is deferred, up to the last event.
  unfoldable pub depart : ℕ → Stream → Controller G → Outcome (Controller G × Place)
  depart now s c =
      delete_peer_update_channel G s.peer
        (record c { channels = change_at s.channel (receiving false) c.channels })
      >>= λ c. let (d, written) = set_connected G now s.peer false c in done (d, leaves)

  -- The end of the first walk: the list of peers is sent, and the call receives, or it departs.
  unfoldable pub begin_loop : ℕ → Bool → Stream → Controller G → Outcome (Controller G × Place)
  begin_loop now sent s c = elim (get_connected_peers G s.peer c) [
    | none ↦ depart now s c
    | some list ↦
        if sent
        then done
            (record c { channels = change_at s.channel (receiving true) c.channels }, receives)
        else depart now s c
  ]

  abbrev visiting :
      (List (ℕ × ℕ) → Update → Place)
      → Stream
      → ℕ × ℕ
      → List (ℕ × ℕ)
      → Update
      → Controller G
      → Outcome (Controller G × Place)
  visiting place s e m u c =
      visit s.peer e u c.channels >>= λ xs. done (record c { channels = xs }, place m u)

  abbrev when_closed : ℕ → Stream → Controller G → Option Channel → Outcome (Controller G × Place)
  when_closed now s c none = blocks
  when_closed now s c (some x) = if x.closed then depart now s c else blocks

  -- A call goes on from its place. In the loop it waits, unless its channel is closed: what it receives is
  -- part of the step of the sender.
  unfoldable pub go_on : ℕ → Bool → Stream → Place → Controller G → Outcome (Controller G × Place)
  go_on now sent s begins c = done (c, walk announces connect s.peer c)
  go_on now sent s (announces (e ∷ m) u) c = visiting announces s e m u c
  go_on now sent s (announces [] u) c = begin_loop now sent s c
  go_on now sent s receives c = when_closed now s c (channel_at c.channels s.channel)
  go_on now sent s leaves c = done (c, walk departs disconnect s.peer c)
  go_on now sent s (departs (e ∷ m) u) c = visiting departs s e m u c
  go_on now sent s (departs [] u) c = done (c, returned)
  go_on now sent s returned c = blocks

  unfoldable pub call_in : ℕ → String → Server G → Outcome (Server G)
  call_in now machine s = elim (admit G now machine s.controller.db) [
    | err e ↦ done s
    | ok peer ↦
        let (c, written) = set_connected G now peer.id true s.controller in
        let (d, n) = get_peer_update_channel G peer.id c in
        if written
        then done (record {
          controller = d;
          calls =
              s.calls
              ++ record { stream = record { peer = peer.id; channel = n }; place = begins } ∷ [];
        })
        else done (record s { controller = c })
  ]

  abbrev place_call : ℕ → Call → Server G → Outcome (Controller G × Place) → Outcome (Server G)
  place_call i k s m = m >>= λ r.
      done (record { controller = r.0; calls = change i (record k { place = r.1 }) s.calls })

  abbrev hang_up : ℕ → ℕ → Call → Place → Server G → Outcome (Server G)
  hang_up now i k receives s = place_call i k s (depart now k.stream s.controller)
  hang_up now i k _ s = blocks

  unfoldable pub stream_step : StreamEvent → Server G → Outcome (Server G)
  stream_step (calls_in now machine) s = call_in now machine s
  stream_step (goes_on now i sent) s = elim (entry s.calls i) [
    | none ↦ blocks
    | some k ↦ place_call i k s (go_on now sent k.stream k.place s.controller)
  ]
  stream_step (hangs_up now i) s = elim (entry s.calls i) [
    | none ↦ blocks
    | some k ↦ hang_up now i k k.place s
  ]

  -- The events that a schedule tries, one after the other. One that cannot happen yet is passed over.
  unfoldable pub stream_run : List StreamEvent → Server G → Outcome (Server G)
  stream_run [] s = done s
  stream_run (e ∷ es) s =
      let rest = stream_run es in
      elim (stream_step e s) [ done t ↦ rest t | blocks ↦ rest s | panics p ↦ panics p ]
