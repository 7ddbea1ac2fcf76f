-- ===== src/Node/AuthFlow/Granted.antt =====
-- Where a token of the flow comes from.
use zeronet.Prelude.{
  String, true, List, [], ◌∷◌, Option, none, some, ◌≡◌, refl, arith, Bool-cases, inl, inr, str_eq,
}
use zeronet.Go.{Outcome, done, Result, ok, err, deref, ◌>>=◌, >>=-eq-done}
use zeronet.Node.AuthFlow.{
  LoginResponse, OauthConfig, Oauth, Arrival, request, server_closed, Flow, config_of,
  handle_callback, serve, auth_flow, auth_url_of,
}
use Prim.Native.String.{◌++◌ as join}

module _ (O : Oauth) (conf : OauthConfig) where
  -- The token endpoint has given the token for a code.
  pub Granted : String → Type 0
  Granted token = (code : String) × (O.exchange conf code O.generate_verifier ≡ ok token)

  abbrev Holds : Flow → Type 0
  Holds f = (t : String) → f.tok ≡ some t → Granted t

  handle_callback-Holds :
      (code : String) (f : Flow) → Holds f → Holds (handle_callback O conf code f)
  unfolding handle_callback Granted
  handle_callback-Holds code f h t e = elim (Bool-cases (str_eq code "")) [
    | inl b ↦ h t (ground arith)
    | inr b ↦ (code, ground arith)
  ]

  pub serve-Holds :
      (arrivals : List Arrival) (f g : Flow) → Holds f → serve O conf arrivals f ≡ done g → Holds g
  unfolding serve
  serve-Holds [] f g h e t x = ground arith
  serve-Holds (request code ∷ rest) f g h e t x =
      serve-Holds rest (handle_callback O conf code f) g (handle_callback-Holds code f h) e t x
  serve-Holds (server_closed ∷ rest) f g h e t x = elim (Bool-cases f.closing) [
    | inl b ↦ h t (ground arith)
    | inr b ↦ serve-Holds rest f g h (ground arith) t x
  ]

-- A token that the flow returns was given by the token endpoint, for a code and with the identity of the client
-- that the response of the node names.
pub auth_flow-Granted :
    (O : Oauth) (info : LoginResponse) (arrivals : List Arrival) (f g : Flow) (token : String)
    → f.tok ≡ none
    → auth_flow O info arrivals f ≡ done (g, ok token)
    → Granted O (config_of info) token
unfolding auth_flow
auth_flow-Granted O info arrivals f g token fresh e = go (O.port_of info.redirect_uri) refl
  where
    begun : Flow
    begun = record f { registered = true; opened = some (auth_url_of O info) }

    last : Flow → Outcome (Flow × Result String String)
    last h = deref h.tok >>= λ t. done (h, ok t)

    served :
        (serve O (config_of info) arrivals begun >>= last) ≡ done (g, ok token)
        → Granted O (config_of info) token
    served x =
        let (h, y, z) = >>=-eq-done (serve O (config_of info) arrivals begun) last x in
        serve-Holds O (config_of info) arrivals begun h (λ t w. ground arith) y token (ground arith)

    go :
        (r : Result String String)
        → O.port_of info.redirect_uri ≡ r
        → Granted O (config_of info) token
    go (err x) p = ground arith
    go (ok port) p = listening (O.listen (join ":" port)) refl
      where
        listening :
            (l : Option String) → O.listen (join ":" port) ≡ l → Granted O (config_of info) token
        listening (some x) l = ground arith
        listening none l = served (ground arith)
