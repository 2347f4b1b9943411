-- ===== src/RemoteRom/Packet.antt =====
-- The packets of src/lib/remote_rom/backend/nic_ip/packet.h, with what stores into their fields
-- keep of a value.
use genode_world.Prelude.{ℕ, List, take, u16, u32}

-- `DataPacket::MAX_PAYLOAD_SIZE`
abbrev pub max_payload_size : ℕ
max_payload_size = 1350

-- `Packet::MAX_NAME_LEN`
abbrev pub max_name_len : ℕ
max_name_len = 64

-- `content` is what follows the header in the frame.
pub record DataPacket : Type 0 where
  pub payload_size : ℕ
  pub window_id : ℕ
  pub packet_id : ℕ
  pub window_length : ℕ
  pub content : List ℕ

pub record AckPacket : Type 0 where
  pub window_id : ℕ
  pub ack_until : ℕ

-- The type of a packet with what follows the common header.
pub data Body : Type 0 where
  signal : ℕ → Body
  update : ℕ → Body
  data_packet : DataPacket → Body
  ack_packet : AckPacket → Body
  unknown : ℕ → Body

pub record Packet : Type 0 where
  pub module_name : List ℕ
  pub content_hash : ℕ
  pub body : Body

-- `strncpy` into 64 bytes keeps 63 characters and ends them with zero.
abbrev pub packet_name : List ℕ → List ℕ
packet_name name = take 63 name

-- A packet with a body, as the frontend names it.
abbrev pub make_packet : List ℕ → ℕ → Body → Packet
make_packet name hash body = record {
  module_name = packet_name name;
  content_hash = u32 hash;
  body = body;
}

-- What the setters of `DataPacket` and `AckPacket` store.
abbrev pub make_data : ℕ → ℕ → ℕ → ℕ → List ℕ → DataPacket
make_data window_id window_length packet_id size content = record {
  payload_size = u16 size;
  window_id = u16 window_id;
  packet_id = u16 packet_id;
  window_length = u16 window_length;
  content = content;
}

abbrev pub make_ack : ℕ → ℕ → AckPacket
make_ack window_id ack_until = record { window_id = u16 window_id; ack_until = u16 ack_until }
