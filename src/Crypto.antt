-- ===== src/Crypto.antt =====
-- koreader-plugin/internal/crypto: the nonces of nonce.go and the tokens of token.go. The keys are
-- those of Go's crypto packages, behind the interface that token.go uses them by; SHA-256 is a
-- function.
pub mod Nonce
pub mod Token
pub mod Genuine
