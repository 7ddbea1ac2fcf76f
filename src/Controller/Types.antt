-- ===== src/Controller/Types.antt =====
-- controller/types/peer.go, and the messages of proto/controller/v1 that it is turned into.
use zeronet.Prelude.{ℕ, ◌*◌, ◌-◌, ◌≡◌, ◌↔◌, String, Bool, leb, arith, true, ap, ◌+◌, ◌≤◌, refl}

-- Times are nanoseconds since the zero `time.Time`.
abbrev pub hour : ℕ
hour = 3600 * 1_000_000_000

pub record Peer : Type 0 where
  pub id : ℕ  -- uint32
  pub machine_id : String
  pub noise_public_key : String
  pub ip : String
  pub prefix : String
  pub endpoint : String
  pub hostname : String
  pub logged_in : Bool
  pub connected : Bool
  pub user : String
  pub disabled : Bool
  pub last_login : ℕ
  pub last_auth : ℕ
  pub created_at : ℕ
  pub updated_at : ℕ

-- The fields of the struct in their order, as an unkeyed literal gives them.
abbrev pub literal :
    ℕ
    → String
    → String
    → String
    → String
    → String
    → String
    → Bool
    → Bool
    → String
    → Bool
    → ℕ
    → ℕ
    → ℕ
    → ℕ
    → Peer
literal id machine key ip prefix endpoint hostname logged_in connected user disabled login auth
      created updated =
    record {
      id = id;
      machine_id = machine;
      noise_public_key = key;
      ip = ip;
      prefix = prefix;
      endpoint = endpoint;
      hostname = hostname;
      logged_in = logged_in;
      connected = connected;
      user = user;
      disabled = disabled;
      last_login = login;
      last_auth = auth;
      created_at = created;
      updated_at = updated;
    }

unfoldable pub copy : Peer → Peer
copy p =
    literal p.id p.machine_id p.noise_public_key p.ip p.prefix p.endpoint p.hostname p.connected
      p.logged_in p.user p.disabled p.last_login p.last_auth p.created_at p.updated_at

-- `ctrlv1.Peer`
pub record ProtoPeer : Type 0 where
  pub id : ℕ
  pub public_key : String
  pub hostname : String
  pub ip : String
  pub endpoint : String
  pub prefix : String
  pub user : String
  pub connected : Bool

unfoldable pub proto : Peer → ProtoPeer
proto p = record {
  id = p.id;
  public_key = p.noise_public_key;
  hostname = p.hostname;
  ip = p.ip;
  endpoint = p.endpoint;
  prefix = p.prefix;
  user = p.user;
  connected = p.connected;
}

-- `ctrlv1.PeerConfig`
pub record PeerConfig : Type 0 where
  pub peer_id : ℕ
  pub tunnel_ip : String
  pub prefix : String

unfoldable pub proto_config : Peer → PeerConfig
proto_config p = record { peer_id = p.id; tunnel_ip = p.ip; prefix = p.prefix }

-- The duration in hours, divided by 24, is compared with 30; it is negative for a `LastAuth` that
-- lies ahead, where subtraction stops at 0 here.
unfoldable pub is_auth_expired : ℕ → Peer → Bool
is_auth_expired now p = leb (30 * (24 * hour)) (now - p.last_auth)

unfoldable pub update_auth : ℕ → Peer → Peer
update_auth now p = record p { last_auth = now }

-- An authentication lasts thirty days, to the nanosecond, from the moment that it is renewed; one
-- that lies ahead has not expired.
pub is_auth_expired-update_auth :
    (now later : ℕ) (p : Peer)
    → (is_auth_expired later (update_auth now p) ≡ true) ↔ (now + 30 * (24 * hour) ≤ later)
unfolding is_auth_expired update_auth
is_auth_expired-update_auth now later p = ground arith

-- `Copy` gives back the peer that it is called on exactly when the peer is logged in and connected,
-- or neither: it exchanges the two fields, and copies every other.
pub copy_lem :
    (p : Peer)
    → (copy p ≡ record p { logged_in = p.connected; connected = p.logged_in })
      × ((copy p ≡ p) ↔ (p.logged_in ≡ p.connected))
unfolding copy
copy_lem p = (refl, (λ e. ap (λ (q : Peer). q.connected) e, λ e. ground arith))
