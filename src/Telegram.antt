-- ===== src/Telegram.antt =====
-- pkg/telegram: the cache of dialogs.
pub mod Store
pub mod Cache
pub mod AccessHash
pub mod Peers
pub mod Updates
mod Tests
