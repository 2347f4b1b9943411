-- ===== src/SshServer/Sftp.antt =====
-- `Ssh::Sftp` of src/server/ssh_server/sftp.cc.
pub mod Packets
pub mod Host
pub mod Values
pub mod Calls
pub mod Files
pub mod Worker
pub mod Queue
