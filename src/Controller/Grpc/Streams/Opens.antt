-- ===== src/Controller/Grpc/Streams/Opens.antt =====
-- A call of `UpdateStream` that opens its stream, in one go and in steps.
use zeronet.Prelude.{ℕ, ◌≡◌, List, ◌∷◌, Bool, String}
use zeronet.Go.{done, ok}
use zeronet.Controller.Store.{Gorm}
use zeronet.Controller.Channels.{Controller, Update}
use zeronet.Controller.Grpc.Stream.{Stream, update_stream}
use zeronet.Controller.Grpc.Stream.Opened.{Opened, update_stream-Opened}
use zeronet.Controller.Grpc.Streams.{Call, stream_run, calls_in, receives}
use zeronet.Controller.Grpc.Streams.Alone.{goes, serving, update_stream-stream_run}

module _ (G : Gorm) (now : ℕ) (cs : List Call) where
  -- A call of `UpdateStream` that opens its stream is of a machine with a row that is enabled, logged in and in
  -- force, and has marked that row as connected; its channel is new and stands in the map under the id of the row;
  -- and the first update lists the rows that are connected, without its own. It does so in steps, too, if no
  -- other call interrupts it: the step that lets it in and some steps of it alone lead to the same
  -- controller, whatever other calls stand still, with the call in its loop.
  pub update_stream-opens :
      (machine : String) (sent : Bool) (stream : Stream) (u : Update) (c d : Controller G)
      → update_stream G now machine sent c ≡ done (d, ok (stream, u))
      → Opened G now machine c d stream u
        × ((n : ℕ) × (stream_run G
                (calls_in now machine ∷ goes G now sent cs stream n)
                (record { controller = c; calls = cs })
              ≡ done (serving G now sent cs stream d receives)))
  update_stream-opens machine sent stream u c d e = (
    update_stream-Opened G now machine sent c d stream u e,
    update_stream-stream_run G now cs machine sent stream u c d e,
  )
