-- ===== src/Playlist.antt =====
-- src/playlist: the order in which a playlist is played.
pub mod Cursor
