-- ===== src/Node/New.antt =====
-- node/node.go: how a node is made.
use zeronet.Prelude.{[], false, Option, none, some, String, Bool, if◌then◌else◌}
use zeronet.Go.Strings.{before}
use zeronet.Addr.{invalid}
use zeronet.Node.Noise.{Noise, DhKey}
use zeronet.Node.State.{Node}
use mathlib.Core.Option

-- What the machine answers: a new pair of keys, its id, its name, and whether the controller can be
-- reached; `none` is an error.
pub record Machine : Type 0 where
  pub key_pair : Option DhKey
  pub machine_id : Option String
  pub host : Option String
  pub dials : Bool

-- A name that cannot be read is replaced in a local variable, and the field stays empty. 46 is the code
-- of `.`.
abbrev pub short_name : Option String → String
short_name none = ""
short_name (some host) = before 46 host

unfoldable pub new_node : {N : Noise} → Machine → Option (Node N)
new_node w = Option.bind w.key_pair λ keys. Option.bind w.machine_id λ id.
    if w.dials
    then some (record {
      id = 0;
      ip = record { addr = invalid; bits = 0 };
      key_pair = keys;
      machine_id = id;
      hostname = short_name w.host;
      discovered_endpoint = "";
      peers = [];
      by_id = [];
      by_ip = [];
      has_conn = false;
      has_tun = false;
      run_cancelled = false;
      running = false;
      logged_in = false;
      stopping = [];
      trace = [];
    })
    else none
