-- ===== src/Media.antt =====
-- Media of messages: client/src/lib/media-hydrate.ts and media-bytes.ts.
pub mod Hydrate
pub mod Bytes
