-- ===== src/Proto.antt =====
-- The crate authn-scope-proto: what agent and host say to one another, and how it is framed.
pub mod Wire
pub mod Codec
