-- ===== src/Shared.antt =====
-- projects/shared: the C library that all programs of the repository use.
pub mod Maths
pub mod Text
pub mod Arena
pub mod Hash
pub mod Trie
pub mod Msi
pub mod Uuid
