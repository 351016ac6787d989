-- ===== src/Hls.antt =====
-- crates/hls/src: the HLS server. The ring holds the finished segments between the segmenter and
-- the HTTP handlers.
pub mod Ring
pub mod Playlist
pub mod Http
pub mod Stats
pub mod Segmenter
