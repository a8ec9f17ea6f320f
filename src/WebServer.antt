-- ===== src/WebServer.antt =====
-- WebServer/: an HTTP file server over epoll, with a table of connections that a second thread sweeps.
pub mod Decode
pub mod Mime
pub mod Response
pub mod Request
pub mod Connections
pub mod Handler
pub mod Setup
pub mod Server
mod Tests
