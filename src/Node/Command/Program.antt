-- ===== src/Node/Command/Program.antt =====
-- node/cmd/service.go: the program that the service manager runs, and node/cmd/root.go, which is the only
-- command that sets the variable `logger`.
use mathlib.Core.Path.{subst}
use mathlib.Core.Option
use zeronet.Prelude.{
  String, Bool, true, false, Option, none, some, List, ◌∷◌, if◌then◌else◌, ◌≡◌, arith, refl,
}
use zeronet.Go.{Outcome, done, panics, nil_pointer, exits, ◌>>=◌}
use zeronet.Node.Noise.{Noise}
use zeronet.Node.State.{Node}
use zeronet.Node.New.{Machine, new_node}
use zeronet.Node.Stop
use zeronet.Node.Stop.{NodeError}

-- How `Serve` ends: because the server was stopped, or with another error.
pub data Served : Type 0 where
  server_stopped : Served
  serve_error : String → Served

-- `program`, with the variable `logger`: `none` is nil. A logger has the lines that it was given.
-- `serving` says that the goroutine of `run` has been started and has not ended.
pub record Program (N : Noise) : Type 0 where
  pub node : Option (Node N)
  pub server : Bool
  pub serving : Bool
  pub logger : Option (List String)

module _ {N : Noise} where
  -- A node that cannot be made ends the process.
  unfoldable pub start_program : Machine → Program N → Outcome (Program N)
  start_program w p = elim (new_node w) [
    | none ↦ panics exits
    | some node ↦ done (record p { node = some node; server = true; serving = true })
  ]

  -- `Stop` of grpc takes a server that is not nil, and may be called again.
  unfoldable pub stop_program : Program N → Outcome (Program N × Option NodeError)
  stop_program p = elim p.node [
    | none ↦ panics nil_pointer
    | some n ↦
        let (m, e) = Stop.stop n in
        if p.server then done (record p { node = some m }, e) else panics nil_pointer
  ]

  abbrev log_error : String → Program N → Outcome (Program N)
  log_error e p = elim p.logger [
    | none ↦ panics nil_pointer
    | some lines ↦ done (record p { logger = some (e ∷ lines) })
  ]

  -- The goroutine that listens on the port 55000 and serves until the server is stopped.
  unfoldable pub run_program : Option String → Served → Program N → Outcome (Program N)
  run_program listen_error served p = elim listen_error [
    | some e ↦ log_error e p >>= λ p. done (record p { serving = false })
    | none ↦ elim served [
      | server_stopped ↦ done (record p { serving = false })
      | serve_error e ↦ log_error e p >>= λ p. done (record p { serving = false })
    ]
  ]

  new_node-unopened : (w : Machine) (n : Node N) → new_node w ≡ some n → n.has_conn ≡ false
  unfolding new_node Option.bind
  new_node-unopened w n e = ground arith

  -- What a program that has started does when its server fails, and when it is stopped.
  pub record Started (logger : Option (List String)) (q : Program N) : Type 0 where
    pub kept : q.logger ≡ logger
    pub unlogged :
        (e : String) (served : Served)
        → logger ≡ none
        → (run_program (some e) served q ≡ panics nil_pointer)
          × (run_program none (serve_error e) q ≡ panics nil_pointer)
    pub logged :
        (e : String) (served : Served) (lines : List String)
        → logger ≡ some lines
        → (run_program (some e) served q
            ≡ done (record q { logger = some (e ∷ lines); serving = false }))
          × (run_program none (serve_error e) q
              ≡ done (record q { logger = some (e ∷ lines); serving = false }))
    pub stops : stop_program q ≡ done (q, some Stop.not_initialized)

  Started-made :
      (w : Machine) (p : Program N) (n : Node N)
      → new_node w ≡ some n
      → Started p.logger (record p { node = some n; server = true; serving = true })
  unfolding run_program stop_program Stop.stop
  Started-made w p n e = record {
    kept = refl;
    unlogged = λ x served h. (rw h refl, rw h refl);
    logged = λ x served lines h. (rw h refl, rw h refl);
    stops = rw (stop_program, Stop.stop, new_node-unopened w n e) refl;
  }

  -- Once the program has started, a port that cannot be listened to, or a server that fails, is a line in the log if
  -- there is a logger, and a panic if there is none, as with every command but the one without a name. To stop the
  -- program before it starts is a panic; to stop it before a user has brought the node up is an error of the node.
  pub start_program-Started :
      (w : Machine) (p : Program N)
      → (p.node ≡ none → stop_program p ≡ panics nil_pointer)
        × ((q : Program N) → start_program w p ≡ done q → Started p.logger q)
  unfolding start_program stop_program
  start_program-Started w p = (λ h. rw h refl, λ q e. go q e (new_node w) refl)
    where
      go :
          (q : Program N)
          → start_program w p ≡ done q
          → (o : Option (Node N)) → new_node w ≡ o
          → Started p.logger q
      go q e none f = absurd (ground arith)
      go q e (some n) f =
          let same : record p { node = some n; server = true; serving = true } ≡ q = ground arith in
          subst (Started p.logger) same (Started-made w p n f)
