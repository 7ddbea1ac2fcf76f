-- ===== src/Controller.antt =====
-- controller/: the server that hands out addresses and tells the nodes of one another.
pub mod Types
pub mod Store
pub mod Ipam
pub mod Auth
pub mod Channels
pub mod Server
pub mod Grpc
pub mod Gateway
pub mod Jwt
pub mod Interceptors
pub mod Startup
pub mod Services
pub mod Tests
mod GatewayTests
mod StartupTests
mod StreamTests
