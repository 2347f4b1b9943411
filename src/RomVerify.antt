-- ===== src/RomVerify.antt =====
-- The proxy that passes ROM modules on whose hash the configuration names.
-- Sources: src/proxy/rom_verify.
pub mod Verify
pub mod Requests
mod Tests
