-- ===== src/Server.antt =====
-- pkg/server: the state that the reference servers keep in memory.
pub mod Queue
pub mod RateLimit
pub mod Replay
pub mod Keyring
pub mod Policy
pub mod Httpx
