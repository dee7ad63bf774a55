-- ===== src/Renderer.antt =====
-- The package internal/renderer.
mod Tests
pub mod Sanitize
pub mod Events
pub mod Progress
pub mod Bar
pub mod Format
pub mod Table
