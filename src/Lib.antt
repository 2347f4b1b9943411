-- ===== src/Lib.antt =====
-- A verification library of the components of this repository that carry logic of their own.
--
-- The remote ROM proxy. A server component forwards a ROM module over UDP, and a client component
-- provides it as a ROM service. The server announces new content (SIGNAL), the client requests it
-- (UPDATE), the server sends it in windows of at most 900 data packets of 1350 bytes (DATA), and
-- the client acknowledges each window, or asks for the packet that it misses (ACK).
--
--   RemoteRom.Packet    src/lib/remote_rom/backend/nic_ip/packet.h: the packets by their fields, cut
--                       to the width that the setters store
--   RemoteRom.Cksum     include/remote_rom/util.h: `cksum`
--   RemoteRom.Window    server.cc: `_calculate_window_size`
--   RemoteRom.Transfer  what a packet of a content is, the specification of the transfer
--   RemoteRom.Server    server.cc (`Content_sender`, `Backend_server`) and
--                       src/proxy/remote_rom/server/main.cc (`Rom_forwarder`): one state, and one
--                       function per event: `receive`, `timeout_handler`, `forwarder_update`
--   RemoteRom.Client    client.cc (`Content_receiver`, `Backend_client`) and
--                       src/proxy/remote_rom/client/main.cc (`Main`, `Rom_module`): one state, with
--                       the two dataspaces of the ROM module, and `receive` and `timeout_handler`
--   RemoteRom.Net       base.h and base.cc: the network layer below both sides, which wraps packets
--                       into UDP and resolves the address of the other side by ARP
--   RemoteRom.Link      a server and a client with a network that loses, repeats, delays and reorders
--                       packets, as a step relation
--
-- The NIC bus, a server that switches packets between its sessions by their MAC addresses.
--
--   NicBus.Bus          src/server/nic_bus/bus.h: the table of sessions, `insert`, `remove`, and the
--                       session that `apply` finds
--   NicBus.Session      src/server/nic_bus/session_component.h: `_send`, `_handle_packet`, with
--                       `apply` and `apply_all` of the bus
--
-- The array of the bus has a fixed size, and an access beyond it is a result of its own
-- (`beyond` of `insert`, none of `remove`, `overruns` and `overrun` of `apply`). The loop of `insert` has no bound in the source; its fuel is the number of rounds,
-- and a run that needs more is a result of its own (`unfinished`). An exception that nothing
-- catches is the result `uncaught`. The packet stream of Genode is a parameter: it says whether a
-- queue takes a packet and whether a buffer can be allocated. A session is named by a number in
-- place of a reference.
--
-- Both programs of the proxy handle one event at a time on one entrypoint, so that an event is a
-- function on the state; the submitted packets are a list in it, the newest first. `accept_packet`
-- and `transmit` are divided into stages that follow the order of the source. Arithmetic on
-- `size_t` wraps at 2^64, and the fields of packets are cut to 16 and 32 bits. The only loop that
-- is not on a list is the one of `transmit` over the packets of a window: its fuel is one more
-- than the packets that are left, and each round sends one.
--
-- Not modelled: log messages, the set-up from the configuration, and the checksums of the UDP and
-- IP headers. In RemoteRom.Net the headers are records of their fields, and a frame that ends too
-- early is a case of its own; whether the NIC session takes a frame is a parameter.
-- RemoteRom.Server and RemoteRom.Client stand above this layer: what they submit is a list of
-- packets. The network of RemoteRom.Link must not announce a content a second time while it is
-- transferred, and must not deliver the last packet of a window after a packet of the next window
-- if that one is shorter; RemoteRom.Client.Upsets is about these packets.
--
-- Anonymous memory mappings for the Go runtime: areas of virtual addresses that are reserved,
-- backed by memory in ranges, and given back in parts.
--
--   AnonMmap.Areas      src/lib/libgo_support/anon_mmap.cc: `Vm_area` and `Vm_area_registry`, with
--                       `reserve`, `commit`, `get_base_address` and `release`
--   AnonMmap.Calls      src/lib/libgo_support/file_operations_anon.cc: `anon_mmap`, `anon_munmap` and
--                       `anon_msync`, with the registry of mmap_registry.h
--
-- The search of `release` through the mapped ranges keeps its variables in a record (`Scan`),
-- since the chunk behind a hole is made of them after the search. The list `mapped` is the code's own
-- account of what is mapped, and `ds` are the dataspaces that are attached, in full length, whatever is
-- released of them. The lists have the newest element first. What the region map and the range allocator of Genode accept is a
-- parameter; the state of the allocator, the dataspaces, the locking and the content of the memory are
-- not modelled. A call that is passed on to the libc has the result `libc`; the variables of
-- `anon_munmap` that have no initial value are an argument.
--
-- The ISO 9660 service, a ROM service for the files of a disc.
--
--   Iso9660.Run         how the code ends: with a value, one of the exceptions of iso9660.h, an access
--                       beyond memory, or not within the fuel
--   Iso9660.Sector      src/server/iso9660/iso9660.cc: `Sector`; the block session is a parameter
--   Iso9660.Record      `Rock_ridge` and `Directory_record` on bytes: `scan_name`, `file_name`, `next`,
--                       `locate`; Iso9660.Record.Layout describes the records by the standards
--   Iso9660.Path        `locate_root` and `file_info`
--   Iso9660.Read        `read_file`
--   Iso9660.Files       src/server/iso9660/main.cc: `File`, `Rom_component` and `_create_session`
--
-- A pointer is a position in a list of bytes, and an access behind the end of the list is a result of
-- its own, as is a name that does not fit into the buffer of `locate`. `dir` is either the copy of the
-- root record or a position in the packet that was read last: a packet is released before the next one
-- is allocated, and takes the same place in the packet buffer. The fuel of the loops is one more than
-- the largest number of rounds: 256 for `scan_name`, since the system use area has at most 255 bytes;
-- the length of the sector for `locate`, since each record is not empty; 2^21 sectors for a directory,
-- since its length has 32 bits; the blocks of the disc for `locate_root`, whose loop has no bound in the
-- source; and the blocks of the file for `read_file`. The product of a block number with a `float`
-- rounds to 24 bits. Parameters are the block session, Genode's scanner, which splits a path into
-- tokens, and the memory of a dataspace for a size. Allocations succeed, and the messages are left out.
--
-- The verifying ROM proxy, which passes a ROM module on if it has the hash that the configuration
-- names.
--
--   RomVerify.Verify    src/proxy/rom_verify/main.cc: `verify` and the constructor of `Session`
--   RomVerify.Requests  `Main`: `handle_session_requests`, `handle_session_request`, `handle_config`;
--                       RomVerify.Requests.Spec is the service as a map from session IDs to contents
--
-- The hash functions and the decoder of Crypto++, the policies of the configuration and the ROM
-- sessions of the parent are parameters. A digest is a list of bytes, and a read beyond it is a result
-- of its own. The answers to the parent are a list of events in the state, the newest first. An ID that
-- has no session makes the ID space of Genode throw, which nothing catches.
--
-- The terminals of the SSH server, which connect a client of a Terminal session with the channels of
-- one or more SSH sessions.
--
--   SshServer.Buffer    src/server/ssh_server/util.h: `Util::Buffer`
--   SshServer.Terminal  src/server/ssh_server/terminal.h: `Terminal` with `write`, `read`, `send` and its
--                       signals; ssh_callbacks.cc: `channel_data_cb` for a session with a terminal;
--                       server.cc: the second and the third step of the loop of the thread
--
-- The capacity of a buffer is a number that every definition takes; it is 4096 in the source. A byte that
-- is written beyond a buffer makes the result none. The two write buffers stand in the roles that the two
-- pointers give them, and are exchanged with them. A call is one step: what the mutexes protect is not
-- interrupted, and a client's write does not come between the sends to two channels of a terminal.
-- Parameters are libssh's channels. The requests of channels, the size of a terminal and the warning
-- about a truncated send are not modelled.
--
-- The logins of the SSH server, and how a session is authenticated.
--
--   SshServer.Logins    src/server/ssh_server/login.h: `Login_registry`; server.cc: `lookup_session`,
--                       `auth_password`, `auth_pubkey` and `_allow_multi_login`
--
-- A string of Genode that is not valid is none, and is compared as the empty text. The registries are lists
-- in the order in which they are visited, of which the last match counts. A session is named by its
-- `ssh_session`, and these are distinct. Reading a key from a file and comparing keys are parameters.
--
-- The SFTP subsystem of the SSH server.
--
--   SshServer.Sftp.Packets  src/server/ssh_server/sftp.cc: `assemble_sftp_packet`, `incoming_sftp_data`,
--                           `handle_eof` and what they call, up to the queue of client requests;
--                           ssh_callbacks.cc: `channel_data_cb` for a session with SFTP
--   SshServer.Sftp.Host     sftp.h: `Handle`, the messages and the replies, and the parameters
--   SshServer.Sftp.Values   what becomes of paths, modes, flags and the values of `errno`
--   SshServer.Sftp.Calls    `process_realpath` as a check, the handles and the replies
--   SshServer.Sftp.Files    `process_message` and the functions for the messages
--   SshServer.Sftp.Worker   `sftp_worker_loop`; its end, where the exit status is sent and the state is
--                           set to `WORKER_FINISHED`, is the result `finished`
--   SshServer.Sftp.Queue    `enqueue_sftp_packet` and `send_queued_packets`
--
-- Parameters are the C library with the file system, and libssh: the table of handles, the reader of
-- messages and the channel. A handle is an object at an address, and an access through a pointer to no
-- object, or to a null `DIR` or `FILE`, is the result `crashed`. No address is given out twice. A result of -1 that is stored in an
-- unsigned variable is 2^32 - 1. The fuel of the loop over received data is two more than the bytes, since
-- every turn but the last takes one at least, and that of the loop over a directory more than the entries
-- left in it. Bits of a number are tested by division. Failures to allocate and to send a reply, the
-- limit of 128 elements of the two queues, the log messages, the set-up and the clean-up of the subsystem
-- and what its threads do at the same time are not modelled.
pub mod Prelude
pub mod RemoteRom
pub mod NicBus
pub mod AnonMmap
pub mod Iso9660
pub mod RomVerify
pub mod SshServer
