-- ===== src/Node/Start.antt =====
-- node/node.go: how a node is started.
use zeronet.Prelude.{Bool, true, false, Option, none, some, if◌then◌else◌, not, ◌||◌}
use zeronet.Go.{Outcome, done, panics, exits, ◌>>=◌}
use zeronet.Node.Noise.{Noise}
use zeronet.Node.Net.{Net}
use zeronet.Node.State.{Node}
use zeronet.Node.Stop.{
  NodeError, not_logged_in, already_running, not_initialized, no_socket, no_tunnel, no_address,
  no_stun,
}
use zeronet.Node.Packets.{send_stun_request}
use zeronet.Node.Client.{handle_update}
use zeronet.Controller.Channels.{Update}

-- What the world answers: whether the socket and the tunnel open, the tunnel takes its address, and the
-- server of STUN is found; and the first update of the controller, `none` if there is none.
pub record World : Type 0 where
  pub socket : Bool
  pub tunnel : Bool
  pub address : Bool
  pub stun : Bool
  pub first_update : Option Update

module _ {N : Noise} (W : Net) where
  -- A stream that cannot be opened, or gives no first update, ends the process.
  unfoldable pub start_update_stream : World → Node N → Outcome (Node N)
  start_update_stream w n = elim w.first_update [
    | none ↦ panics exits
    | some u ↦ handle_update W u n
  ]

  unfoldable pub run : World → Node N → Outcome (Node N × Option NodeError)
  run w n =
      if not n.has_conn || not n.has_tun
      then done (n, some not_initialized)
      else if not w.address
      then done (n, some no_address)
      else elim (send_stun_request w.stun n) [
        | none ↦ done (n, some no_stun)
        | some m ↦ start_update_stream w m >>= λ m. done (record m { running = true }, none)
      ]

  -- A node that `Run` refuses has its context cancelled.
  abbrev pub cancel : Node N × Option NodeError → Node N × Option NodeError
  cancel (n, none) = (n, none)
  cancel (n, some e) = (record n { run_cancelled = true }, some e)

  unfoldable pub start : World → Node N → Outcome (Node N × Option NodeError)
  start w n =
      if not n.logged_in
      then done (n, some not_logged_in)
      else if n.running
      then done (n, some already_running)
      else if not w.socket
      then done (record n { has_conn = false }, some no_socket)
      else if not w.tunnel
      then done (record n { has_conn = true; has_tun = false }, some no_tunnel)
      else (run w (record n { has_conn = true; has_tun = true; run_cancelled = false }) >>= λ r.
          done (cancel r))
