-- ===== src/Node.antt =====
-- node/: the agent on each machine.
pub mod Noise
pub mod Buffer
pub mod Peer
pub mod Net
pub mod State
pub mod Client
pub mod Packets
pub mod Stop
pub mod Start
pub mod Service
pub mod New
pub mod Events
pub mod Pools
pub mod Loops
pub mod Invariant
pub mod Runs
pub mod Contacts
pub mod Crashes
pub mod Tests
mod LoopTests
pub mod Moves
pub mod Sync
pub mod Routing
pub mod Keys
pub mod AuthFlow
pub mod Command
