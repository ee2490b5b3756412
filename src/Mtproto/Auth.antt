-- ===== src/Mtproto/Auth.antt =====
-- internal/mtproto/auth.go and rsa.go: the key exchange. Answers reads the server's answers, Params
-- is the check of the Diffie-Hellman values, Rsa the padding, Exchange the whole of it.
pub mod Answers
pub mod Params
pub mod Rsa
pub mod Exchange
mod Tests
