-- ===== src/Controller/Services.antt =====
-- controller/cmd/root.go: the group of goroutines that serve gRPC and HTTP until one of them fails or a
-- signal arrives, and the end of the process.
pub mod Ends
use zeronet.Prelude.{
  String, Bool, true, false, Option, none, some, List, [], ◌∷◌, if◌then◌else◌, not, ◌&&◌,
}

-- `GracefulStop` and `Stop` of a gRPC server; `Shutdown` and `Close` of an HTTP server.
pub data Stop : Type 0 where
  graceful_stop stop shutdown close : Stop

-- The goroutines that have not returned, whether their context is cancelled, and the first error that one of
-- them has returned; and how the servers were stopped.
pub record Group : Type 0 where
  pub grpc_serving : Bool
  pub http_serving : Bool
  pub cleanup_waiting : Bool
  pub cancelled : Bool
  pub first_error : Option String
  pub stops : List Stop

unfoldable pub new_group : Group
new_group = record {
  grpc_serving = true;
  http_serving = true;
  cleanup_waiting = true;
  cancelled = false;
  first_error = none;
  stops = [];
}

-- A signal; a server that cannot listen or serve, with its error; and the third goroutine, when the context is
-- cancelled, with whether each server stops within ten seconds.
pub data Event : Type 0 where
  signalled : Event
  grpc_fails http_fails : String → Event
  cleans : (grpc_in_time http_in_time : Bool) → Event

-- What errgroup does with the error of a goroutine.
abbrev pub returned : String → Group → Group
returned e g = record g {
  cancelled = true;
  first_error = elim g.first_error [ some first ↦ some first | none ↦ some e ];
}

unfoldable pub stop_grpc_server : Bool → Group → Group
stop_grpc_server in_time g = record g {
  grpc_serving = false;
  stops = if in_time then graceful_stop ∷ g.stops else stop ∷ graceful_stop ∷ g.stops;
}

unfoldable pub stop_http_server : Bool → Group → Group
stop_http_server in_time g = record g {
  http_serving = false;
  stops = if in_time then shutdown ∷ g.stops else close ∷ shutdown ∷ g.stops;
}

-- An event that cannot happen changes nothing. A server that is stopped returns no error of its own.
unfoldable pub group_step : Event → Group → Group
group_step signalled g = record g { cancelled = true }
group_step (grpc_fails e) g =
    if g.grpc_serving then returned e (record g { grpc_serving = false }) else g
group_step (http_fails e) g =
    if g.http_serving then returned e (record g { http_serving = false }) else g
group_step (cleans a b) g =
    if g.cancelled && g.cleanup_waiting
    then stop_http_server b (stop_grpc_server a (record g { cleanup_waiting = false }))
    else g

unfoldable pub group_run : List Event → Group → Group
group_run [] g = g
group_run (e ∷ es) g = group_run es (group_step e g)

-- `eg.Wait` returns when every goroutine has: the process returns, or ends with `log.Fatal`.
pub data Ending : Type 0 where
  returns : Ending
  fatal : String → Ending

unfoldable pub ending : Group → Option Ending
ending g =
    if not g.grpc_serving && (not g.http_serving && not g.cleanup_waiting)
    then some (elim g.first_error [ none ↦ returns | some e ↦ fatal e ])
    else none
