-- ===== src/Downloader.antt =====
-- The package internal/downloader, with the ranged download of pkg/telegram/file.go that it uses.
mod Tests
pub mod FilePath
pub mod Manifest
pub mod Reserve
pub mod Resume
pub mod Transfer
