-- ===== src/Node/Command.antt =====
-- node/cmd/: the commands of the node: those that call the service of a node that runs, the service itself,
-- and those that have the system install, start and stop it.
pub mod Client
pub mod Program
pub mod Manage
pub mod Tests
use zeronet.Prelude.{List, String}
use zeronet.Go.{Panic}

-- How the process of a command ends: with lines printed, by `log.Fatal`, by a panic, or not at all.
pub data Exit : Type 0 where
  returns : List String → Exit
  fatal : String → Exit
  crashes : Panic → Exit
  hangs : Exit
