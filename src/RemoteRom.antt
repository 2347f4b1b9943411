-- ===== src/RemoteRom.antt =====
-- The remote ROM proxy: a server component forwards a ROM module over UDP, and a client component
-- provides it as a ROM service.
-- Sources: include/remote_rom, src/lib/remote_rom/backend/nic_ip and src/proxy/remote_rom.
pub mod Packet
pub mod Cksum
pub mod Window
pub mod Transfer
pub mod Server
pub mod Net
pub mod Client
pub mod Link
pub mod Sample
mod Tests
