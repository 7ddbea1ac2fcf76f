-- ===== src/Controller/Grpc/Stream.antt =====
-- `UpdateStream` of controller/grpc_v1.go, up to its loop, and from the end of the loop on.
pub mod Reconnect
pub mod Opened
use zeronet.Controller.Server.{database}
use zeronet.Prelude.{ℕ, ◌≡◌, String, Bool, true, false, Option, some, none, if◌then◌else◌, not}
use zeronet.Go.{Outcome, done, ◌>>=◌, Result, ok, err}
use zeronet.Controller.Types.{Peer, is_auth_expired}
use zeronet.Controller.Store.{Gorm}
use zeronet.Controller.Channels.{
  Controller, Channel, Update, change_at, init, get_peer_update_channel, delete_peer_update_channel,
  peer_connected_event, peer_disconnected_event, get_connected_peers,
}
use zeronet.Controller.Grpc.{Status, refuse, not_found, unauthenticated, internal, of_error}

-- The variables of the call: the peer, by its id, and its channel.
pub record Stream : Type 0 where
  pub peer : ℕ
  pub channel : ℕ

abbrev pub receiving : Bool → Channel → Channel
receiving b x = record x { receiving = b }

module _ (G : Gorm) where
  abbrev pub set_connected : ℕ → ℕ → Bool → Controller G → Controller G × Bool
  set_connected now id b c =
      let (d, written) = G.update_connected c.db now id b in (record c { db = d }, written)

  -- The deferred function.
  unfoldable pub leave : ℕ → Stream → Controller G → Outcome (Controller G)
  leave now s c = delete_peer_update_channel G s.peer c >>= λ c.
      peer_disconnected_event G s.peer (set_connected now s.peer false c).0

  unfoldable pub admit : ℕ → String → G.Db → Result Status Peer
  admit now machine d = elim (G.first_machine d machine) [
    | none ↦ refuse not_found "peer with machine id is not registered"
    | some peer ↦
        if is_auth_expired now peer
        then refuse unauthenticated "peer auth is expired, needs new login"
        else (if peer.disabled
            then refuse internal "peer is currently disabled"
            else (if not peer.logged_in
                then refuse internal "peer requires login first"
                else ok peer))
  ]

  -- `sent` says whether the first list of peers could be sent. The loop receives from then on.
  unfoldable pub greet :
      ℕ → Bool → Stream → Controller G → Outcome (Controller G × Result Status (Stream × Update))
  greet now sent s c = elim (get_connected_peers G s.peer c) [
    | none ↦ leave now s c >>= λ c.
        done (c, err (record { code = internal; message = of_error database }))
    | some list ↦
        let u : Update = record {
          update_type = init;
          peer_list = some list;
          punch_endpoint = "";
        } in
        if sent
        then done
            (record c { channels = change_at s.channel (receiving true) c.channels }, ok (s, u))
        else leave now s c >>= λ c. done (c, refuse internal "error sending data on stream")
  ]

  unfoldable pub join :
      ℕ → Bool → ℕ → Controller G → Outcome (Controller G × Result Status (Stream × Update))
  join now sent id c =
      let (c, n) = get_peer_update_channel G id c in
      peer_connected_event G id c >>= λ c. greet now sent (record { peer = id; channel = n }) c

  unfoldable pub update_stream :
      ℕ → String → Bool → Controller G → Outcome (Controller G × Result Status (Stream × Update))
  update_stream now machine sent c = elim (admit now machine c.db) [
    | err s ↦ done (c, err s)
    | ok peer ↦
        let (c, written) = set_connected now peer.id true c in
        if written
        then join now sent peer.id c
        else done (c, refuse internal "error setting peer connected status")
  ]

  -- The loop ends, since the client is gone or since the channel is closed, and no longer receives.
  unfoldable pub end_stream : ℕ → Stream → Controller G → Outcome (Controller G)
  end_stream now s c =
      leave now s (record c { channels = change_at s.channel (receiving false) c.channels })
