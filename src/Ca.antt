-- ===== src/Ca.antt =====
-- The crate authn-scope-ca: the key and the certificate of the authority, and signing.
pub mod Errors
pub mod Files
pub mod Rcgen
pub mod Authority
pub mod Signing
