-- ===== src/Ssr.antt =====
-- src/ssr: the data-plane codec.
pub mod Crypto
pub mod Kdf
pub mod Protocol
pub mod Rc4
pub mod Cipher
pub mod Session
pub mod Udp
pub mod Profile
pub mod Address
