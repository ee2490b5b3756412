-- ===== src/Proxy.antt =====
-- Package proxy (internal/proxy/target.go): links, secrets, and the target that they name.
pub mod Errors
pub mod Secret
pub mod Link
