-- ===== src/Tunnel.antt =====
-- node/tun/: the tunnel device of the node.
pub mod Unix
pub mod Windows
mod Tests
