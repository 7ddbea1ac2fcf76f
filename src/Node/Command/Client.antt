-- ===== src/Node/Command/Client.antt =====
-- node/cmd/service.go: the commands `up`, `down` and `login`. The node is behind an interface, whose calls
-- go over gRPC.
use zeronet.Prelude.{String, List, [], ◌∷◌, Option, none, some, false, if◌then◌else◌, str_eq}
use zeronet.Go.{Outcome, done, panics, blocks, Result, ok, err}
use zeronet.Node.AuthFlow.{LoginResponse, Oauth, Arrival, Flow, auth_flow}
use zeronet.Node.Command.{Exit, returns, fatal, crashes, hangs}

-- A call is answered, with a response or an error, or never.
pub data Rpc (A : Type 0) : Type 0 where
  answers : Result String A → Rpc A
  no_answer : Rpc A

-- `NodeServiceClient` and what is behind it. `dial` gives the error of `DialContext`.
pub record NodeService : Type 1 where
  pub State : Type 0
  pub dial : State → Option String
  pub up : State → State × Rpc String
  pub down : State → State × Rpc String
  pub login : String → State → State × Rpc LoginResponse

-- A process that has not registered a handler and has no token.
abbrev pub fresh_flow : Flow
fresh_flow = record { tok = none; registered = false; closing = false; pages = []; opened = none }

abbrev status_shown : Rpc String → Exit
status_shown no_answer = hangs
status_shown (answers (err e)) = fatal e
status_shown (answers (ok status)) = returns (status ∷ [])

module _ (S : NodeService) where
  unfoldable pub up_command : S.State → S.State × Exit
  up_command s = elim (S.dial s) [
    | some e ↦ (s, fatal e)
    | none ↦ let (s', r) = S.up s in (s', status_shown r)
  ]

  unfoldable pub down_command : S.State → S.State × Exit
  down_command s = elim (S.dial s) [
    | some e ↦ (s, fatal e)
    | none ↦ let (s', r) = S.down s in (s', status_shown r)
  ]

  -- The second login; what its response says is not looked at.
  unfoldable pub login_again : String → S.State → S.State × Exit
  login_again token s =
      let (s', r) = S.login token s in
      (
        s',
        elim r [
          | no_answer ↦ hangs
          | answers (err e) ↦ fatal e
          | answers (ok response) ↦ returns []
        ],
      )

  unfoldable pub with_token : Outcome (Flow × Result String String) → S.State → S.State × Exit
  with_token (panics e) s = (s, crashes e)
  with_token blocks s = (s, hangs)
  with_token (done (f, err e)) s = (s, fatal e)
  with_token (done (f, ok token)) s = login_again token s

  unfoldable pub after_login : Oauth → List Arrival → LoginResponse → S.State → S.State × Exit
  after_login O arrivals response s =
      if str_eq response.status "login successful"
      then (s, returns ("node login successful" ∷ []))
      else if str_eq response.status "need access token"
      then with_token (auth_flow O response arrivals fresh_flow) s
      else (s, returns [])

  unfoldable pub login_command : Oauth → List Arrival → S.State → S.State × Exit
  login_command O arrivals s = elim (S.dial s) [
    | some e ↦ (s, fatal e)
    | none ↦
        let (s', r) = S.login "" s in
        elim r [
          | no_answer ↦ (s', hangs)
          | answers (err e) ↦ (s', fatal e)
          | answers (ok response) ↦ after_login O arrivals response s'
        ]
  ]
