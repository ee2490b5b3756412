-- ===== src/Mtproto.antt =====
-- Package mtproto (internal/mtproto): one child for each of its files that is modelled.
pub mod Binary
pub mod Errors
pub mod Tl
pub mod Transport
pub mod Ige
pub mod Factorize
pub mod Obfuscate
pub mod Stream
pub mod Session
pub mod Auth
pub mod Probe
pub mod FakeTls
pub mod Socks5
pub mod Api
pub mod Audit
pub mod Probes
