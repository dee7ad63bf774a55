-- ===== src/Dropbox.antt =====
-- pkg/dropbox: the listing of a directory.
pub mod Listing
mod Tests
