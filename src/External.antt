-- ===== src/External.antt =====
-- The libraries that the program calls, as interfaces: operations, and the laws that it relies on.
pub mod Sled
pub mod Serde
pub mod Crypto
pub mod RoundBased
pub mod Gg20
pub mod Queues
pub mod Regex
