-- ===== src/Server.antt =====
-- The crate authn-scope-server: the host's certificate authority daemon.
pub mod Config
pub mod Policy
pub mod Handler
pub mod Listener
pub mod Main
