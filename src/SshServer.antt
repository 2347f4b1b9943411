-- ===== src/SshServer.antt =====
-- The terminals, the logins and the file transfer of src/server/ssh_server.
pub mod Buffer
pub mod Terminal
pub mod Logins
pub mod Sftp
pub mod Tests
