-- ===== src/Iso9660.antt =====
-- The ROM service for the files of an ISO 9660 disc.
-- Sources: src/server/iso9660.
pub mod Run
pub mod Sector
pub mod Record
pub mod Path
pub mod Read
pub mod Files
mod Tests
