-- ===== src/Controller/Server.antt =====
-- controller/controller.go: logging a peer in and out, registering and deleting it.
pub mod Rows
pub mod Register
pub mod Distinct
pub mod Delete
use zeronet.Prelude.{ℕ, String, Bool, true, false, Option, some, none, [], ◌∷◌, ◌++◌, if◌then◌else◌}
use zeronet.Go.{Outcome, done, ◌>>=◌, Result, ok, err}
use zeronet.Controller.Types.{Peer}
use zeronet.Controller.Store.{Gorm}
use zeronet.Controller.Ipam.{Netip, Prefix, allocate_peer_ip}
use zeronet.Controller.Channels.{Controller, peer_forced_logout_event, delete_peer_update_channel}

-- The errors; what the database says of a failed call is left out.
pub data Failure : Type 0 where
  disabled_peer peer_does_not_exist database allocation error_creating_peer : Failure

-- `ctrlv1.LoginPeerRequest`
pub record LoginPeerRequest : Type 0 where
  pub machine_id : String
  pub public_key : String
  pub hostname : String
  pub endpoint : String
  pub access_token : String

abbrev pub empty_peer : Peer
empty_peer = record {
  id = 0;
  machine_id = "";
  noise_public_key = "";
  ip = "";
  prefix = "";
  endpoint = "";
  hostname = "";
  logged_in = false;
  connected = false;
  user = "";
  disabled = false;
  last_login = 0;
  last_auth = 0;
  created_at = 0;
  updated_at = 0;
}

-- The fields that a login sets.
abbrev pub logged_in_as : ℕ → LoginPeerRequest → Peer → Peer
logged_in_as now req peer = record peer {
  last_login = now;
  noise_public_key = req.public_key;
  hostname = req.hostname;
  endpoint = req.endpoint;
  connected = false;
  logged_in = true;
}

abbrev pub failed_unless : Bool → Option Failure
failed_unless b = if b then none else some database

module _ (G : Gorm) where
  -- The peer is changed in place, also when the update fails.
  unfoldable pub process_peer_login :
      ℕ → Peer → LoginPeerRequest → Controller G → Controller G × Peer × Option Failure
  process_peer_login now peer req c =
      if peer.disabled
      then (c, peer, some disabled_peer)
      else (let p = logged_in_as now req peer in
          let (d, written) = G.updates c.db now p in
          (record c { db = d }, p, failed_unless written))

  abbrev pub write_logout : ℕ → ℕ → Controller G → Controller G × Option Failure
  write_logout now id c =
      let (d, written) =
        G.updates c.db now (record empty_peer { id = id; logged_in = false; connected = false }) in
      (record c { db = d; cleanups = c.cleanups ++ id ∷ [] }, failed_unless written)

  unfoldable pub logout_peer : ℕ → Peer → Controller G → Outcome (Controller G × Option Failure)
  logout_peer now peer c =
      peer_forced_logout_event G peer.id c >>= λ c. done (write_logout now peer.id c)

  -- The goroutine that `LogoutPeer` starts, ten seconds later.
  unfoldable pub cleanup : ℕ → Controller G → Outcome (Controller G)
  cleanup id c = delete_peer_update_channel G id c

  abbrev pub remove : Peer → Controller G → Controller G × Option Failure
  remove peer c =
      let (d, written) = G.delete c.db peer in (record c { db = d }, failed_unless written)

  abbrev pub remove_logged_out :
      Peer → Controller G × Option Failure → Outcome (Controller G × Option Failure)
  remove_logged_out peer (c, some f) = done (c, some f)
  remove_logged_out peer (c, none) = done (remove peer c)

  unfoldable pub delete_peer : ℕ → ℕ → Controller G → Outcome (Controller G × Option Failure)
  delete_peer now id c = elim (G.first_id c.db id) [
    | none ↦ done (c, some peer_does_not_exist)
    | some peer ↦
        if peer.connected
        then logout_peer now peer c >>= remove_logged_out peer
        else done (remove peer c)
  ]

  module _ (I : Netip) (prefix_string : Prefix → String) where
    abbrev pub requested_peer : ℕ → LoginPeerRequest → Prefix → String → String → Peer
    requested_peer now req prefix ip user = record empty_peer {
      machine_id = req.machine_id;
      noise_public_key = req.public_key;
      hostname = req.hostname;
      prefix = prefix_string prefix;
      ip = ip;
      endpoint = req.endpoint;
      connected = false;
      logged_in = true;
      last_auth = now;
      last_login = now;
      user = user;
    }

    unfoldable pub register_peer :
        ℕ → Prefix → LoginPeerRequest → String → Controller G → Controller G × Result Failure Peer
    register_peer now prefix req user c = elim (allocate_peer_ip I G c.db prefix) [
      | none ↦ (c, err allocation)
      | some ip ↦
          let (d, created) = G.create c.db now (requested_peer now req prefix ip user) in
          (record c { db = d }, elim created [ none ↦ err error_creating_peer | some p ↦ ok p ])
    ]
