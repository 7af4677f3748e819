-- ===== src/Agent.antt =====
-- The crate authn-scope-agent: the agent in a guest.
pub mod Config
pub mod Csr
pub mod Match
pub mod Kernel
pub mod Dial
pub mod Exchange
pub mod Request
pub mod Cache
pub mod Startup
pub mod Conn
pub mod Api
pub mod Main
