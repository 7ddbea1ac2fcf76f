-- ===== src/Controller/Tests.antt =====
-- A controller with one peer, over the table of rows and the unary addresses.

use zeronet.Prelude.{
  ℕ, zero, suc, ◌+◌, ◌<◌, ◌≡◌, ◌≢◌, refl, String, true, some, List, [], ◌∷◌, arith, All, ◌⊎◌,
}
use zeronet.Go.{Result, ok, err}
use zeronet.Go.SyncMap.{load, nat_key, store, delete}
use zeronet.Controller.Types.{Peer}
use zeronet.Controller.Store.Table.{table}
use zeronet.Controller.Ipam.{
  Addr, v4, invalid, Prefix, get_allocated_ips, parse_all, taken, contains_addr, allocate_peer_ip,
}
use zeronet.Controller.Ipam.Free.{FirstFree, allocate_peer_ip_lem}
use zeronet.Controller.Ipam.Full.{Outside, allocate_peer_ip-full}
use zeronet.Controller.Ipam.Unary.{netip, unary_text}
use zeronet.Controller.Auth.{
  Idp, Cache, Body, answered, validate_access_token, validate_audience, get_user, get_user_info,
}
use zeronet.Controller.Auth.Cache.{Accepted, validate_access_token_lem}
use zeronet.Controller.Server.{empty_peer}

abbrev pub machine : String
machine = "0123456789012345678901234567890123456789012345678901234567890123"

abbrev pub laptop : Peer
laptop = record empty_peer {
  id = 1;
  machine_id = machine;
  noise_public_key = "key";
  ip = unary_text (v4 1);
  hostname = "laptop";
  logged_in = true;
  connected = true;
  user = "ann@zeronet";
  last_auth = 5;
}

abbrev pub network : Prefix
network = record { addr = v4 0; bits = 24 }

-- Two addresses, the first and the last of the network.
abbrev point_to_point : Prefix
point_to_point = record { addr = v4 4; bits = 31 }

abbrev ips : List Addr
ips = v4 1 ∷ []

allocated : get_allocated_ips netip table (laptop ∷ []) ≡ some ips
unfolding get_allocated_ips parse_all
allocated = refl

allocate_peer_ip_lem_example :
    (r : Addr) × (allocate_peer_ip netip table (laptop ∷ []) network ≡ some (unary_text r))
    × FirstFree (contains_addr (taken netip table network ips)) (v4 0) r
    × (r ≢ v4 0)
    × (r ≢ v4 255)
    × ((r ≡ invalid) ⊎ All (λ (q : Peer). q.ip ≢ unary_text r) (laptop ∷ []))
allocate_peer_ip_lem_example =
    allocate_peer_ip_lem netip table (laptop ∷ []) network ips (v4 0 ∷ v4 255 ∷ ips) allocated refl

both_taken :
    (k : ℕ) → k < 2 → contains_addr (taken netip table point_to_point ips) (v4 (4 + k)) ≡ true
both_taken zero h = refl
both_taken (suc zero) h = refl
both_taken (suc (suc k)) h = absurd (omega (arith, h))

allocate_peer_ip-full_example :
    (r : Addr) × (allocate_peer_ip netip table (laptop ∷ []) point_to_point ≡ some (unary_text r))
    × Outside 6 r
allocate_peer_ip-full_example =
    allocate_peer_ip-full netip table (laptop ∷ []) point_to_point ips (v4 4 ∷ v4 5 ∷ ips) 4 2
      allocated refl refl (omega arith) both_taken

abbrev ann : Body
ann = record {
  name = "Ann";
  given_name = "Ann";
  family_name = "";
  email = "ann@zeronet";
  nickname = "";
}

-- A provider whose tokens are all good, and name Ann.
abbrev pub idp : Idp
idp = record {
  Token = String;
  parse_token = λ t. ok t;
  valid = λ t. true;
  subject = λ t. ok "1";
  audience = λ t. ok ("zeronet" ∷ []);
  userinfo = λ t. answered (ok ann);
}

abbrev pub known : Cache
known =
    (
      "1",
      record {
        name = "Ann";
        given_name = "Ann";
        family_name = "";
        email = "ann@zeronet";
        nickname = "";
        updated_at = 0;
      },
    )
    ∷ []

abbrev named : Result String String
named = ok "ann@zeronet"

validated : validate_access_token idp "zeronet" [] "token" ≡ (known, named)
unfolding validate_access_token validate_audience get_user get_user_info load store delete
validated = refl

validate_access_token_lem_example :
    ((user : String) × (named ≡ ok user) × Accepted idp "zeronet" "token" [] known user)
    ⊎ ((e : String) × (named ≡ err e) × (known ≡ []))
validate_access_token_lem_example =
    validate_access_token_lem idp "zeronet" "token" [] known named validated
