-- ===== src/Controller/Gateway/Authorization.antt =====
-- Who may delete a peer through the web API, and what is gone then.
use mathlib.Core.Path.{subst}
use zeronet.Prelude.{
  ℕ, String, [], ◌∷◌, ◌≡◌, ◌≢◌, refl, sym, ◌∙◌, Option, none, some, arith, All, inl, inr, ◌⊎◌,
}
use zeronet.Go.{Outcome, done, ◌>>=◌, >>=-eq-done, Result, ok, err}
use zeronet.Go.Strings.{second_piece}
use zeronet.Controller.Types.{Peer}
use zeronet.Controller.Store.{Gorm}
use zeronet.Controller.Ipam.{Netip, Prefix}
use zeronet.Controller.Auth.{Idp, Cache, validate_access_token}
use zeronet.Controller.Auth.Cache.{Accepted, validate_access_token_lem}
use zeronet.Controller.Channels.{Controller}
use zeronet.Controller.Server
use zeronet.Controller.Server.{Failure}
use zeronet.Controller.Server.Delete.{delete_peer-rows}
use zeronet.Controller.Grpc.{text, GrpcServer, Status, unauthenticated}
use zeronet.Controller.Gateway.{
  Metadata, extract_token_metadata, authorize, delete_peer, deleted_or,
}

extract_token_metadata-unauthenticated :
    (md : Metadata) (w : Status) → extract_token_metadata md ≡ err w → w.code ≡ unauthenticated
unfolding extract_token_metadata
extract_token_metadata-unauthenticated none w e = ground arith
extract_token_metadata-unauthenticated (some []) w e = ground arith
extract_token_metadata-unauthenticated (some (v ∷ vs)) w e = go (second_piece "Bearer " v) refl
  where
    go : (o : Option String) → second_piece "Bearer " v ≡ o → w.code ≡ unauthenticated
    go none f = ground arith
    go (some t) f = ground arith

module _ (G : Gorm) (P : Idp) (I : Netip) (prefix_string : Prefix → String) where
  -- The metadata has a token that the validator accepts.
  pub Authorized : GrpcServer G P I prefix_string → Metadata → Type 0
  Authorized s md =
      (token : String) × (user : String) × (cache : Cache) × (extract_token_metadata md ≡ ok token)
      × Accepted P s.audience token s.cache cache user

  authorize-cases :
      (md : Metadata) (s s' : GrpcServer G P I prefix_string) (r : Result Status String)
      → authorize G P I prefix_string md s ≡ (s', r)
      → (s'.controller ≡ s.controller)
        × (((user : String) × (r ≡ ok user) × Authorized s md)
            ⊎ ((e : Status) × (r ≡ err e) × (e.code ≡ unauthenticated)))
  unfolding authorize Authorized
  authorize-cases md s s' r h = go (extract_token_metadata md) refl
    where
      checked :
          (token : String)
          → extract_token_metadata md ≡ ok token
          → (x : Cache × Result String String)
          → validate_access_token P s.audience s.cache token ≡ x
          → (s'.controller ≡ s.controller)
            × (((user : String) × (r ≡ ok user) × Authorized s md)
                ⊎ ((e : Status) × (r ≡ err e) × (e.code ≡ unauthenticated)))
      checked token e (c, x) f = elim (validate_access_token_lem P s.audience token s.cache c x f) [
        | inl (user, is, ok_) ↦ (ground arith, inl (user, ground arith, (token, user, c, e, ok_)))
        | inr (why, is, same) ↦ (
          ground arith,
          inr (record { code = unauthenticated; message = text why }, ground arith, refl),
        )
      ]

      go :
          (t : Result Status String)
          → extract_token_metadata md ≡ t
          → (s'.controller ≡ s.controller)
            × (((user : String) × (r ≡ ok user) × Authorized s md)
                ⊎ ((e : Status) × (r ≡ err e) × (e.code ≡ unauthenticated)))
      go (ok token) f = checked token f (validate_access_token P s.audience s.cache token) refl
      go (err w) f =
          (ground arith, inr (w, ground arith, extract_token_metadata-unauthenticated md w f))

  -- Without a token that the validator accepts, `DeletePeer` refuses as unauthenticated, and the controller is
  -- as it was. With one, an answer without an error means that no row has the id.
  pub delete_peer-Authorized :
      (now id : ℕ) (md : Metadata) (s s' : GrpcServer G P I prefix_string)
      (r : Result Status (Unit {0}))
      → delete_peer G P I prefix_string now id md s ≡ done (s', r)
      → ((e : Status) × (r ≡ err e) × (e.code ≡ unauthenticated) × (s'.controller ≡ s.controller))
        ⊎ (Authorized s md × (r ≡ ok tt → All (λ (p : Peer). p.id ≢ id) (G.rows s'.controller.db)))
  unfolding delete_peer
  delete_peer-Authorized now id md s s' r h = go (authorize G P I prefix_string md s) refl
    where
      gone :
          (x : Controller G × Option Failure)
          → Server.delete_peer G now id s.controller ≡ done x
          → s'.controller ≡ x.0
          → r ≡ deleted_or x.1
          → r ≡ ok tt
          → All (λ (p : Peer). p.id ≢ id) (G.rows s'.controller.db)
      gone (c, none) e at is fine =
          subst (λ (z : Controller G). All (λ (p : Peer). p.id ≢ id) (G.rows z.db)) (sym at)
            (delete_peer-rows G now id s.controller c e)
      gone (c, some f) e at is fine = refuted f (sym is ∙ fine)
        where
          refuted :
              (f : Failure)
              → deleted_or (some f) ≡ ok tt
              → All (λ (p : Peer). p.id ≢ id) (G.rows s'.controller.db)
          refuted Server.disabled_peer e = cc
          refuted Server.peer_does_not_exist e = cc
          refuted Server.database e = cc
          refuted Server.allocation e = cc
          refuted Server.error_creating_peer e = cc

      go :
          (x : GrpcServer G P I prefix_string × Result Status String)
          → authorize G P I prefix_string md s ≡ x
          → ((e : Status) × (r ≡ err e)
              × (e.code ≡ unauthenticated)
              × (s'.controller ≡ s.controller))
            ⊎ (Authorized s md
                × (r ≡ ok tt → All (λ (p : Peer). p.id ≢ id) (G.rows s'.controller.db)))
      go (t, u) e =
          let (same, how) = authorize-cases md s t u e in
          elim how [
            | inr (w, is, code) ↦ inl (w, ground arith, code, ground arith)
            | inl (user, is, allowed) ↦
                let ends : Controller G × Option Failure
                    → Outcome (GrpcServer G P I prefix_string × Result Status (Unit {0})) =
                  λ x. done (record t { controller = x.0 }, deleted_or x.1) in
                let all : (Server.delete_peer G now id t.controller >>= ends) ≡ done (s', r) =
                  ground arith in
                let (x, f, g) = >>=-eq-done (Server.delete_peer G now id t.controller) ends all in
                inr (
                  allowed,
                  gone x (subst (λ c. Server.delete_peer G now id c ≡ done x) same f) (ground arith)
                      (ground arith),
                )
          ]
