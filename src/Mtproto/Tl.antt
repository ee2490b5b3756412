-- ===== src/Mtproto/Tl.antt =====
-- internal/mtproto/tl.go: the TL writer `buf` and the reader `cursor`.
pub mod Buf
pub mod Cursor
pub mod Read
pub mod RoundTrip
mod Tests
