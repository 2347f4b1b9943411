-- ===== src/NicBus.antt =====
-- The NIC bus: a server that switches packets between its sessions by their MAC addresses.
-- Sources: src/server/nic_bus.
pub mod Bus
pub mod Session
mod Tests
