-- ===== src/Util.antt =====
-- server/util.go: conversions of bytes, hex text and integers, and reading of the key store. A byte
-- is a number, a Go string the list of its bytes.
pub mod Hex
pub mod Numbers
pub mod Hashes
pub mod KeyStore
