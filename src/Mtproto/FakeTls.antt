-- ===== src/Mtproto/FakeTls.antt =====
-- internal/mtproto/faketls.go: the FakeTLS handshake and the record layer behind it.
pub mod Builder
pub mod Hello
pub mod Records
pub mod Conn
pub mod Verify
mod Tests
