-- ===== src/Io.antt =====
-- Buffered channels: byterun/io.c and byterun/io.h.
pub mod Channel
pub mod Output
pub mod Input
