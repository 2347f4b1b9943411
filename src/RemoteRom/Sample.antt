-- ===== src/RemoteRom/Sample.antt =====
-- A content of three bytes, and a server and a client that are ready to exchange it.
use genode_world.Prelude.{ℕ, true, false, List, [], ◌∷◌, none}
use genode_world.RemoteRom.Cksum.{cksum}
use genode_world.RemoteRom.Packet.{Packet, DataPacket, update, data_packet, make_packet, make_data}
use genode_world.RemoteRom.Server
use genode_world.RemoteRom.Server.{Server, Sender, Forwarder, Rom}
use genode_world.RemoteRom.Client
use genode_world.RemoteRom.Client.{
  Client, Receiver, RomModule, accept_packet, start_new_content, left, right, fg_bytes, is_complete,
}
use genode_world.RemoteRom.Link.{Link}
use genode_world.RemoteRom.Link.Transfer.{announced}

abbrev pub content : List ℕ
content = 7 ∷ 8 ∷ 9 ∷ []

abbrev pub name : List ℕ
name = 114 ∷ []

abbrev pub rom : Rom
rom = record { valid = true; bytes = content }

abbrev pub idle_sender : Sender
idle_sender = record {
  data_size = 0;
  window_length = 0;
  window_id = 0;
  offset = 0;
  packet_id = 0;
  errors = 0;
  scheduled = false;
  registered = true;
}

abbrev pub server : Server
server = record {
  sender = idle_sender;
  forwarder = record {
    rom = rom;
    pending = rom;
    binary = true;
    modulename = name;
    current_hash = cksum content;
    transmitting = false;
    update_received = false;
  };
  tx = [];
}

-- The client has sent a request before.
abbrev pub client : Client
client = record {
  receiver = record {
    write_ptr = none;
    buf_size = 0;
    offset = 0;
    window_id = 0;
    window_length = 0;
    next_packet_id = 0;
    omit_nack = false;
    scheduled = false;
    registered = true;
  };
  rom_module = record {
    left_bytes = [];
    right_bytes = 1 ∷ [];
    bg = left;
    bg_hash = 0;
    bg_size = 0;
  };
  remotename = name;
  notified = 0;
  tx = make_packet name (cksum content) (update 3) ∷ [];
}

abbrev pub request : Packet
request = make_packet name (cksum content) (update 3)

abbrev pub part : DataPacket
part = make_data 0 1 0 3 content

abbrev pub delivery : Packet
delivery = make_packet name (cksum content) (data_packet part)

-- The request, then the packet that answers it.
abbrev pub start : Link
start = announced content server client

abbrev pub asked : Link
asked = record start { server = Server.receive request start.server }

abbrev pub finished : Link
finished = record asked { client = Client.receive delivery asked.client }
