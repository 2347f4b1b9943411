-- ===== src/SshServer/Sftp/Packets.antt =====
-- `assemble_sftp_packet` and `incoming_sftp_data` of src/server/ssh_server/sftp.cc, with the states of
-- the subsystem.
pub mod Payload
pub mod Split
pub mod Ends
pub mod Delivery
pub mod Encode
pub mod Chunks
mod Tests
use genode_world.Prelude.{
  ℕ, zero, suc, ◌+◌, ◌-◌, ◌*◌, min, ltb, ◌==◌, if◌then◌else◌, Bool, true, false, ◌||◌, List, [],
  ◌∷◌, ◌++◌, Option, none, some, length, take, drop, u32,
}

pub data PacketState : Type 0 where
  initial payload_inited size_read type_read payload_allocated packet_assembled : PacketState

-- `sftp_packet`
pub record Packet : Type 0 where
  pub type : ℕ
  pub payload : List ℕ

-- The packet that is being assembled; `size_buffer` has `size_filled` bytes.
pub record Assembler : Type 0 where
  pub packet_state : PacketState
  pub size_buffer : List ℕ
  pub packet_size_left : ℕ
  pub packet : Packet

-- How the assembly ends: all data was taken, a packet is assembled and some data is left, or -1.
pub data Assembly : Type 0 where
  taken : Assembler → Assembly
  assembled : List ℕ → Assembler → Assembly
  refused : Assembler → Assembly

abbrev pub packet_size_max : ℕ
packet_size_max = 268435456

-- `sftp_get_u32`
abbrev pub get_u32 : List ℕ → ℕ
get_u32 (a ∷ b ∷ c ∷ d ∷ rest) = a * 16777216 + b * 65536 + c * 256 + d
get_u32 bs = 0

-- The loop that fills the size buffer: the buffer, and what is left of the data.
unfoldable pub fill : List ℕ → List ℕ → List ℕ × List ℕ
fill buf [] = (buf, [])
fill buf (d ∷ ds) = if ltb (length buf) 4 then fill (buf ++ d ∷ []) ds else (buf, d ∷ ds)

-- The cases of the switch, each with those that it falls through to.
abbrev pub add_payload : ℕ → List ℕ → Assembler → Assembler
add_payload n bytes a = record a {
  packet_size_left = a.packet_size_left - n;
  packet = record (a.packet) { payload = a.packet.payload ++ take n bytes };
}

unfoldable pub at_payload : List ℕ → Assembler → Assembly
at_payload bytes a =
    let n = min a.packet_size_left (length bytes) in
    if a.packet_size_left - n == 0
    then assembled (drop n bytes)
        (record (add_payload n bytes a) { packet_state = packet_assembled })
    else taken (add_payload n bytes a)

abbrev pub at_type : List ℕ → Assembler → Assembly
at_type bytes a = at_payload bytes (record a { packet_state = payload_allocated })

abbrev pub at_size : List ℕ → Assembler → Assembly
at_size [] a = taken a
at_size (d ∷ bytes) a = at_type bytes (record a {
  packet = record (a.packet) { type = d };
  packet_size_left = a.packet_size_left - 1;
  packet_state = type_read;
})

abbrev pub with_size : List ℕ × List ℕ → Assembler → Assembly
with_size (buf, bytes) a =
    let a' = record a { size_buffer = buf; packet_size_left = get_u32 buf } in
    if length buf == 4
    then if get_u32 buf == 0 || ltb packet_size_max (get_u32 buf)
      then refused a'
      else at_size bytes (record a' { packet_state = size_read })
    else taken (record a { size_buffer = buf })

abbrev pub at_inited : List ℕ → Assembler → Assembly
at_inited bytes a = with_size (fill a.size_buffer bytes) a

abbrev pub at_initial : List ℕ → Assembler → Assembly
at_initial bytes a = at_inited bytes (record a {
  packet = record (a.packet) { payload = [] };
  size_buffer = [];
  packet_state = payload_inited;
})

abbrev pub in_packet_state : PacketState → List ℕ → Assembler → Assembly
in_packet_state initial bytes a = at_initial bytes a
in_packet_state payload_inited bytes a = at_inited bytes a
in_packet_state size_read bytes a = at_size bytes a
in_packet_state type_read bytes a = at_type bytes a
in_packet_state payload_allocated bytes a = at_payload bytes a
in_packet_state packet_assembled bytes a = assembled bytes a

unfoldable pub assemble : List ℕ → Assembler → Assembly
assemble bytes a = in_packet_state a.packet_state bytes a

pub data State : Type 0 where
  uninitialized created initialized worker_closing worker_finished create_error clean : State

-- The subsystem: whether there is an SFTP server of libssh, and the queue of requests, in which
-- none stands for the empty message.
pub record Subsystem (Message : Type 0) : Type 0 where
  pub has_server : Bool
  pub assembler : Assembler
  pub state : State
  pub requests : List (Option Message)

-- libssh: whether `sftp_server_init` succeeds with the packet, and the message that
-- `sftp_get_client_message` makes of one, if any. Both read the packet.
pub record Server (Message : Type 0) : Type 0 where
  pub init : Packet → Bool
  pub client_message : Packet → Option Message

module _ {Message : Type 0} (server : Server Message) where
  -- `set_state` warns of a transition that is not expected, and makes it.
  abbrev pub set_state : State → Subsystem Message → Subsystem Message
  set_state state s = record s { state = state }

  abbrev pub enqueue : Option Message → Subsystem Message → Subsystem Message
  enqueue m s = record s { requests = s.requests ++ m ∷ [] }

  abbrev pub handle_eof : Subsystem Message → Subsystem Message
  handle_eof s = enqueue none (set_state worker_closing s)

  -- `consume_sftp_packet`
  abbrev pub consume_packet : Subsystem Message → Subsystem Message
  consume_packet s = record s { assembler = record (s.assembler) { packet_state = initial } }

  abbrev pub init_server : Packet → Subsystem Message → Subsystem Message
  init_server p s =
      if server.init p then set_state initialized s else handle_eof (set_state initialized s)

  abbrev pub in_state : State → Packet → Subsystem Message → Subsystem Message
  in_state created p s = init_server p s
  in_state create_error p s = s
  in_state uninitialized p s = enqueue (server.client_message p) s
  in_state initialized p s = enqueue (server.client_message p) s
  in_state worker_closing p s = enqueue (server.client_message p) s
  in_state worker_finished p s = enqueue (server.client_message p) s
  in_state clean p s = enqueue (server.client_message p) s

  -- What is done with an assembled packet.
  unfoldable pub process_packet : Subsystem Message → Subsystem Message
  process_packet s = in_state s.state s.assembler.packet (consume_packet s)

  abbrev pub assemble_packet : List ℕ → Subsystem Message → Assembly
  assemble_packet bytes s = if s.has_server then assemble bytes s.assembler else taken s.assembler

  -- A turn of the loop: the number of bytes that the code takes for left, and the state. An error is
  -- returned as 2^32 - 1 bytes.
  abbrev pub after_assembly :
      (List ℕ → Subsystem Message → Option (ℕ × Subsystem Message))
      → List ℕ
      → Subsystem Message
      → Assembly
      → Option (ℕ × Subsystem Message)
  after_assembly again bytes s (taken a) = some (0, record s { assembler = a })
  after_assembly again bytes s (refused a) =
      some (u32 (length bytes + 1), record s { assembler = a })
  after_assembly again bytes s (assembled [] a) =
      some (0, process_packet (record s { assembler = a }))
  after_assembly again bytes s (assembled (d ∷ ds) a) =
      again (d ∷ ds) (process_packet (record s { assembler = a }))

  -- The loop, with fuel.
  unfoldable pub incoming_loop : ℕ → List ℕ → Subsystem Message → Option (ℕ × Subsystem Message)
  incoming_loop zero bytes s = none
  incoming_loop (suc fuel) bytes s =
      after_assembly (incoming_loop fuel) bytes s (assemble_packet bytes s)

  abbrev pub returned : ℕ → Option (ℕ × Subsystem Message) → Option (ℕ × Subsystem Message)
  returned len none = none
  returned len (some (avail, s)) = some (u32 (len + 4294967296 - avail), s)

  unfoldable pub incoming_data : List ℕ → Subsystem Message → Option (ℕ × Subsystem Message)
  incoming_data bytes s = returned (length bytes) (incoming_loop (suc (suc (length bytes))) bytes s)

  -- `channel_data_cb` for a session with the subsystem
  abbrev pub channel_data : List ℕ → Subsystem Message → Option (ℕ × Subsystem Message)
  channel_data [] s = some (0, s)
  channel_data (d ∷ bytes) s = incoming_data (d ∷ bytes) s
