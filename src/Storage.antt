-- ===== src/Storage.antt =====
-- backend/src/storage: checksums, encryption at rest, and the engine that writes blobs.
pub mod Crc32
pub mod Blob
pub mod Engine
pub mod Stream
