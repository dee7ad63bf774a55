-- ===== src/Cmd.antt =====
-- The package cmd/cmd.
mod Tests
pub mod Prompt
pub mod Output
pub mod OneShot
pub mod History
pub mod Session
pub mod Completion
pub mod Yandex
