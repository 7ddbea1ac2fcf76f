-- ===== src/Controller/Store.antt =====
-- controller/db/peer.go: the table of peers. GORM and SQLite are a parameter of the model: what the
-- controller calls, and what their documentation says of each call, over the rows of the table.
pub mod Table
pub mod Distinct
use zeronet.Prelude.{
  ℕ, String, Bool, Option, some, none, List, [], ◌∷◌, ◌++◌, map, ◌==◌, if◌then◌else◌, ◌≡◌, str_eq,
  ◌||◌, ◌⊎◌, Bool-cases, inl, inr, refl, All, ◌≢◌,
}
use zeronet.Controller.Types.{Peer}

-- A value that is not the zero value of its type replaces the one in the row.
abbrev pub text_or : String → String → String
text_or new old = if str_eq new "" then old else new

pub text_or-same : (new old : String) → old ≡ new → text_or new old ≡ new
text_or-same new old e = elim (Bool-cases (str_eq new "")) [ inl h ↦ rw h e | inr h ↦ rw h refl ]

abbrev number_or : ℕ → ℕ → ℕ
number_or new old = if new == 0 then old else new

-- `Updates` with a struct writes the fields that are not zero, and the time of the update.
abbrev pub merge : ℕ → Peer → Peer → Peer
merge now new old = record {
  id = old.id;
  machine_id = text_or new.machine_id old.machine_id;
  noise_public_key = text_or new.noise_public_key old.noise_public_key;
  ip = text_or new.ip old.ip;
  prefix = text_or new.prefix old.prefix;
  endpoint = text_or new.endpoint old.endpoint;
  hostname = text_or new.hostname old.hostname;
  logged_in = new.logged_in || old.logged_in;
  connected = new.connected || old.connected;
  user = text_or new.user old.user;
  disabled = new.disabled || old.disabled;
  last_login = number_or new.last_login old.last_login;
  last_auth = number_or new.last_auth old.last_auth;
  created_at = number_or new.created_at old.created_at;
  updated_at = now;
}

-- The rows with one id, changed; the others as they were.
abbrev pub at_id : ℕ → (Peer → Peer) → List Peer → List Peer
at_id i f [] = []
at_id i f (p ∷ ps) = (if p.id == i then f p else p) ∷ at_id i f ps

abbrev pub without_id : ℕ → List Peer → List Peer
without_id i [] = []
without_id i (p ∷ ps) = let rest = without_id i ps in if p.id == i then rest else p ∷ rest

abbrev pub connected_peers : List Peer → List Peer
connected_peers [] = []
connected_peers (p ∷ ps) = let rest = connected_peers ps in if p.connected then p ∷ rest else rest

-- Whether a row is in the table.
abbrev pub Has : Peer → List Peer → Type 0
Has p [] = ⊥
Has p (q ∷ qs) = (p ≡ q) ⊎ Has p qs

-- A query that fails, or a record that is not found, is `none`; a write says whether it succeeded, and
-- is rolled back if not. Times are those of the write.
pub record Gorm : Type 1 where
  pub Db : Type 0
  pub rows : Db → List Peer
  pub first_machine : Db → String → Option Peer
  pub first_id : Db → ℕ → Option Peer
  pub find_all : Db → Option (List Peer)
  pub find_connected : Db → Option (List Peer)
  pub pluck_ip : Db → Option (List String)
  pub update_connected : Db → (now id : ℕ) → Bool → Db × Bool
  pub set_endpoint : Db → (now id : ℕ) → String → Db × Bool
  pub updates : Db → (now : ℕ) → Peer → Db × Bool
  pub create : Db → (now : ℕ) → Peer → Db × Option Peer
  pub delete : Db → Peer → Db × Bool
  pub first_machine-some :
      (d : Db) (m : String) (p : Peer)
      → first_machine d m ≡ some p
      → Has p (rows d) × (p.machine_id ≡ m)
  pub first_id-some :
      (d : Db) (i : ℕ) (p : Peer) → first_id d i ≡ some p → Has p (rows d) × (p.id ≡ i)
  pub find_all-some : (d : Db) (ps : List Peer) → find_all d ≡ some ps → ps ≡ rows d
  pub find_connected-some :
      (d : Db) (ps : List Peer) → find_connected d ≡ some ps → ps ≡ connected_peers (rows d)
  pub pluck_ip-some :
      (d : Db) (ips : List String) → pluck_ip d ≡ some ips → ips ≡ map (λ p. p.ip) (rows d)
  pub update_connected-rows :
      (d : Db) (now i : ℕ) (c : Bool)
      → let (d', done) = update_connected d now i c in
        rows d' ≡ (
          if done
          then at_id i (λ p. record p { connected = c; updated_at = now }) (rows d)
          else rows d)
  pub set_endpoint-rows :
      (d : Db) (now i : ℕ) (e : String)
      → let (d', done) = set_endpoint d now i e in
        rows d' ≡ (
          if done
          then at_id i (λ p. record p { endpoint = e; updated_at = now }) (rows d)
          else rows d)
  pub updates-rows :
      (d : Db) (now : ℕ) (p : Peer)
      → let (d', done) = updates d now p in
        rows d' ≡ (if done then at_id p.id (merge now p) (rows d) else rows d)
  pub create-some :
      (d d' : Db) (now : ℕ) (p q : Peer)
      → create d now p ≡ (d', some q)
      → (q ≡ record p { id = q.id; created_at = now; updated_at = now })
        × (rows d' ≡ rows d ++ q ∷ [])
        × All (λ (r : Peer). q.id ≢ r.id) (rows d)
  pub create-none :
      (d d' : Db) (now : ℕ) (p : Peer) → create d now p ≡ (d', none) → rows d' ≡ rows d
  pub delete-rows :
      (d : Db) (p : Peer)
      → let (d', done) = delete d p in rows d' ≡ (if done then without_id p.id (rows d) else rows d)
