-- ===== src/Controller/Store/Table.antt =====
-- The store over a list of rows, where every call succeeds: the laws that the model asks of the
-- database can hold.
use mathlib.Core.Path.{subst}
use mathlib.Core.Option.{some-injective, none-ne-some}
use zeronet.Prelude.{
  ℕ, suc, ◌≤◌, ◌≡◌, refl, String, Bool, true, false, Option, some, none, List, [], ◌∷◌, map, arith,
  if◌then◌else◌, ◌++◌, str_eq, ltb, ap, ◌==◌, inl, sym, ◌∙◌, eq_iff, inr, All, ◌≢◌,
}
use zeronet.Controller.Types.{Peer}
use zeronet.Controller.Store.{Gorm, Has, merge, at_id, without_id, connected_peers}

abbrev pub machine_row : List Peer → String → Option Peer
machine_row [] m = none
machine_row (p ∷ ps) m =
    let rest = machine_row ps m in if str_eq p.machine_id m then some p else rest

abbrev pub id_row : List Peer → ℕ → Option Peer
id_row [] i = none
id_row (p ∷ ps) i = let rest = id_row ps i in if p.id == i then some p else rest

-- A number above every id of the rows.
abbrev pub fresh_id : List Peer → ℕ
fresh_id [] = 1
fresh_id (p ∷ ps) = let n = fresh_id ps in if ltb p.id n then n else suc p.id

abbrev pub created : List Peer → ℕ → Peer → Peer
created ps now p = record p { id = fresh_id ps; created_at = now; updated_at = now }

pub machine_row-Has :
    (ps : List Peer) (m : String) (p : Peer)
    → machine_row ps m ≡ some p
    → Has p ps × (p.machine_id ≡ m)
machine_row-Has [] m p e = ground arith
machine_row-Has (q ∷ ps) m p e = go (str_eq q.machine_id m) refl e (machine_row-Has ps m p)
  where
    go :
        (b : Bool)
        → str_eq q.machine_id m ≡ b
        → (if b then some q else machine_row ps m) ≡ some p
        → (machine_row ps m ≡ some p → Has p ps × (p.machine_id ≡ m))
        → Has p (q ∷ ps) × (p.machine_id ≡ m)
    go true u e rec =
        let same : q ≡ p = ground arith in
        (inl (sym same), ap (λ (r : Peer). r.machine_id) (sym same) ∙ (eq_iff q.machine_id m).0 u)
    go false u e rec = let (has, same) = rec e in (inr has, same)

pub id_row-Has : (ps : List Peer) (i : ℕ) (p : Peer) → id_row ps i ≡ some p → Has p ps × (p.id ≡ i)
id_row-Has [] i p e = ground arith
id_row-Has (q ∷ ps) i p e = ground (arith, id_row-Has ps i p)

fresh_id-above : (ps : List Peer) (n : ℕ) → fresh_id ps ≤ n → All (λ (r : Peer). n ≢ r.id) ps
fresh_id-above [] n h = tt
fresh_id-above (p ∷ ps) n h = (ground arith, fresh_id-above ps n (ground arith))

pub create_table :
    (d d' : List Peer) (now : ℕ) (p q : Peer)
    → d ++ created d now p ∷ [] ≡ d'
    → some (created d now p) ≡ some q
    → (q ≡ record p { id = q.id; created_at = now; updated_at = now })
      × (d' ≡ d ++ q ∷ [])
      × All (λ (r : Peer). q.id ≢ r.id) d
create_table d d' now p q e f =
    let same : created d now p ≡ q = ground arith in
    (
      subst (λ (r : Peer). r ≡ record p { id = r.id; created_at = now; updated_at = now }) same
          refl,
      sym e ∙ ap (λ (r : Peer). d ++ r ∷ []) same,
      subst (λ (q : Peer). All (λ (r : Peer). q.id ≢ r.id) d) same
          (fresh_id-above d (fresh_id d) (omega arith)),
    )

abbrev pub table : Gorm
table = record {
  Db = List Peer;
  rows = λ d. d;
  first_machine = machine_row;
  first_id = id_row;
  find_all = λ d. some d;
  find_connected = λ d. some (connected_peers d);
  pluck_ip = λ d. some (map (λ (p : Peer). p.ip) d);
  update_connected =
      λ d now i c. (at_id i (λ p. record p { connected = c; updated_at = now }) d, true);
  set_endpoint = λ d now i e. (at_id i (λ p. record p { endpoint = e; updated_at = now }) d, true);
  updates = λ d now p. (at_id p.id (merge now p) d, true);
  create = λ d now p. (d ++ created d now p ∷ [], some (created d now p));
  delete = λ d p. (without_id p.id d, true);
  first_machine-some = machine_row-Has;
  first_id-some = id_row-Has;
  find_all-some = λ d ps e. sym (some-injective _ _ e);
  find_connected-some = λ d ps e. sym (some-injective _ _ e);
  pluck_ip-some = λ d ps e. sym (some-injective _ _ e);
  update_connected-rows = λ d now i c. refl;
  set_endpoint-rows = λ d now i e. refl;
  updates-rows = λ d now p. refl;
  create-some = λ d d' now p q e. create_table d d' now p q (ap (λ x. x.0) e) (ap (λ x. x.1) e);
  create-none = λ d d' now p e. absurd (none-ne-some _ (sym (ap (λ x. x.1) e)));
  delete-rows = λ d p. refl;
}
