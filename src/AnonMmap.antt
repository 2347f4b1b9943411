-- ===== src/AnonMmap.antt =====
-- Anonymous memory mappings: ranges of virtual addresses that are reserved, backed by memory, and
-- given back in parts.
-- Sources: src/lib/libgo_support/anon_mmap.cc.
pub mod Areas
pub mod Calls
mod Tests
