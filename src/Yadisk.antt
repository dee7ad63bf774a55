-- ===== src/Yadisk.antt =====
-- pkg/yadisk: the client of Yandex Disk's public links and the downloader of their files.
mod Tests
pub mod Names
pub mod Media
pub mod Http
pub mod Resolve
pub mod Playlist
pub mod Directory
pub mod Open
pub mod Streams
pub mod Direct
pub mod Download
