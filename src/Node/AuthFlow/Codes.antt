-- ===== src/Node/AuthFlow/Codes.antt =====
-- Which requests from the browser give a token.

use zeronet.Prelude.{
  String, true, List, [], ◌∷◌, ◌++◌, Option, none, some, ◌≡◌, refl, arith, map, str_eq, ◌∙◌,
  if◌then◌else◌, false, ap,
}
use zeronet.Go.{done, ok, err, deref, panics, nil_pointer, ◌>>=◌, Outcome, Result}
use zeronet.Node.AuthFlow.{
  OauthConfig, Oauth, Arrival, request, server_closed, Flow, handle_callback, serve, LoginResponse,
  auth_url_of, config_of, auth_flow,
}
use Prim.Native.String.{◌++◌ as join}

abbrev pub IsEmpty : String → Type 0
IsEmpty code = code ≡ ""

-- The last code that is not empty.
abbrev pub last_code : List String → Option String
last_code [] = none
last_code (code ∷ codes) = elim (last_code codes) [
  | some c ↦ some c
  | none ↦ if str_eq code "" then none else some code
]

module _ (O : Oauth) (conf : OauthConfig) where
  handled : List String → Flow → Flow
  handled [] f = f
  handled (code ∷ codes) f = handled codes (handle_callback O conf code f)

  closes_after : (code : String) (f : Flow) → (handle_callback O conf code f).closing ≡ true
  unfolding handle_callback
  closes_after code f = ground arith

  keeps_closing :
      (codes : List String) (f : Flow) → f.closing ≡ true → (handled codes f).closing ≡ true
  unfolding handled
  keeps_closing [] f h = h
  keeps_closing (code ∷ codes) f h =
      keeps_closing codes (handle_callback O conf code f) (closes_after code f)

  -- The token that the flow ends with.
  abbrev pub token_of : Option String → Option String → Option String
  token_of none before = before
  token_of (some code) before = elim (O.exchange conf code O.generate_verifier) [
    | ok token ↦ some token
    | err e ↦ none
  ]

  handled-tok :
      (codes : List String) (f : Flow) → (handled codes f).tok ≡ token_of (last_code codes) f.tok
  unfolding handled handle_callback
  handled-tok [] f = refl
  handled-tok (code ∷ codes) f =
      go (last_code codes) refl (handled-tok codes (handle_callback O conf code f))
    where
      go :
          (o : Option String)
          → last_code codes ≡ o
          → (handled codes (handle_callback O conf code f)).tok
            ≡ token_of (last_code codes) (handle_callback O conf code f).tok
          → (handled codes (handle_callback O conf code f)).tok
            ≡ token_of (last_code (code ∷ codes)) f.tok
      go (some c) e h = h ∙ rw e refl
      go none e h = h ∙ rw e (ground arith)

  serve-requests :
      (codes : List String) (rest : List Arrival) (f : Flow)
      → f.closing ≡ true
      → serve O conf (map request codes ++ server_closed ∷ rest) f ≡ done (handled codes f)
  unfolding serve handled
  serve-requests [] rest f h = rw h refl
  serve-requests (code ∷ codes) rest f h =
      serve-requests codes rest (handle_callback O conf code f) (closes_after code f)

-- What the flow comes to by the last code, with what it leaves.
abbrev pub decided :
    Oauth → OauthConfig → Option String → Flow → Outcome (Flow × Result String String)
decided O conf none g = panics nil_pointer
decided O conf (some code) g = elim (O.exchange conf code O.generate_verifier) [
  | ok token ↦ done (g, ok token)
  | err e ↦ panics nil_pointer
]

module _ (O : Oauth) (conf : OauthConfig) where
  deref-token_of :
      (o before : Option String)
      → before ≡ none
      → (g : Flow)
      → (deref (token_of O conf o before) >>= λ token. done (g, ok token)) ≡ decided O conf o g
  deref-token_of none before h g = rw h refl
  deref-token_of (some code) before h g = go (O.exchange conf code O.generate_verifier) refl
    where
      go :
          (r : Result String String)
          → O.exchange conf code O.generate_verifier ≡ r
          → (deref (token_of O conf (some code) before) >>= λ token. done (g, ok token))
            ≡ decided O conf (some code) g
      go (ok token) x = rw (x, decided, token_of) refl
      go (err e) x = rw (x, decided, token_of) refl

  handled-opened : (codes : List String) (f : Flow) → (handled O conf codes f).opened ≡ f.opened
  unfolding handled handle_callback
  handled-opened [] f = refl
  handled-opened (code ∷ codes) f =
      let kept : (handle_callback O conf code f).opened ≡ f.opened = ground arith in
      handled-opened codes (handle_callback O conf code f) ∙ kept

module _ (O : Oauth) (info : LoginResponse) (code : String) (codes : List String)
    (rest : List Arrival) (f : Flow) (port : String) (fresh : f.registered ≡ false)
    (parses : O.port_of info.redirect_uri ≡ ok port) (listens : O.listen (join ":" port) ≡ none)
    (empty : f.tok ≡ none) where
  arrivals : List Arrival
  arrivals = map request (code ∷ codes) ++ server_closed ∷ rest

  started : Flow
  started = record f { registered = true; opened = some (auth_url_of O info) }

  ended : Flow
  ended = handled O (config_of info) (code ∷ codes) started

  serves : serve O (config_of info) arrivals started ≡ done ended
  unfolding arrivals ended serve handled
  serves =
      serve-requests O (config_of info) codes rest (handle_callback O (config_of info) code started)
        (closes_after O (config_of info) code started)

  flow_of : auth_flow O info arrivals f ≡ (deref ended.tok >>= λ token. done (ended, ok token))
  unfolding auth_flow started
  flow_of = rw (auth_flow, fresh) (rw parses (rw listens (rw serves refl)))

  -- The last request with a code decides what a login in the browser comes to, if the redirect URI has a port that
  -- can be listened to, no handler is registered and there is no token yet: the flow returns the token that the
  -- token endpoint gives for that code, and if it gives none, or if no request had a code, the flow reads a token
  -- that is not there and the process panics. The browser is sent to the URL that the library makes for the client.
  pub auth_flow_lem :
      (g : Flow) × (auth_flow O info (map request (code ∷ codes) ++ server_closed ∷ rest) f
        ≡ decided O (config_of info) (last_code (code ∷ codes)) g)
      × (g.opened ≡ some (auth_url_of O info))
  unfolding arrivals ended started
  auth_flow_lem =
      let conf : OauthConfig = config_of info in
      (
        ended,
        flow_of
            ∙ ap (λ t. deref t >>= λ token. done (ended, ok token))
                (handled-tok O conf (code ∷ codes) started)
            ∙ deref-token_of O conf (last_code (code ∷ codes)) f.tok empty ended,
        handled-opened O conf (code ∷ codes) started,
      )
