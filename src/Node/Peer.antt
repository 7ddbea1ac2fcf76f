-- ===== src/Node/Peer.antt =====
-- node/peer.go: a remote peer, its queues and its life cycle. A method returns the peer that it
-- leaves; what it does to the rest of the node it adds to `trace`, newest first.
pub mod State
pub mod Handshake
pub mod Data
pub mod Lifecycle
pub mod Invariant
pub mod Runs
pub mod Crashes
pub mod Retries
pub mod Session
pub mod Identity
pub mod Connection
pub mod Agreement
pub mod Delivery
mod ConnectionTests
pub mod Tests
