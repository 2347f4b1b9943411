-- ===== src/RemoteRom/Client.antt =====
-- The client side: `Content_receiver` and `Backend_client` of
-- src/lib/remote_rom/backend/nic_ip/client.cc, with the frontend `Main` and its `Rom_module` of
-- src/proxy/remote_rom/client/main.cc.
pub mod Frame
pub mod Memory
pub mod Holds
pub mod Progress
pub mod Accept
pub mod Start
pub mod InOrder
pub mod Safety
pub mod Upsets
mod Tests
use genode_world.Prelude.{
  ℕ, ◌+◌, ◌==◌, Bool, true, false, not, ◌||◌, ◌&&◌, List, [], ◌∷◌, Option, none, some, min, length,
  take, replicate, overwrite, list_eq, ltb, leb, if◌then◌else◌, add_size, sub_size, mul_size, u32,
}
use genode_world.RemoteRom.Packet.{
  Packet, Body, signal, update, data_packet, ack_packet, unknown, DataPacket, make_packet, make_ack,
}
use genode_world.RemoteRom.Cksum.{cksum}

-- The two dataspaces of a `Rom_module`. A swap exchanges their roles, and a pointer into one of
-- them stays where it is.
pub data Side : Type 0 where
  left right : Side

abbrev pub other : Side → Side
other left = right
other right = left

pub record RomModule : Type 0 where
  pub left_bytes : List ℕ
  pub right_bytes : List ℕ
  pub bg : Side
  pub bg_hash : ℕ
  pub bg_size : ℕ

abbrev pub bytes_at : Side → RomModule → List ℕ
bytes_at left m = m.left_bytes
bytes_at right m = m.right_bytes

abbrev pub store_at : Side → List ℕ → RomModule → RomModule
store_at left bytes m = record m { left_bytes = bytes }
store_at right bytes m = record m { right_bytes = bytes }

-- `fg_dataspace`
abbrev pub fg_bytes : RomModule → List ℕ
fg_bytes m = bytes_at (other m.bg) m

-- `_bg.realloc`: a dataspace that is allocated anew is filled with zeros.
pub grow : ℕ → RomModule → RomModule
grow size m = if ltb (length (bytes_at m.bg m)) size then store_at m.bg (replicate size 0) m else m

pub base : ℕ → RomModule → Side × RomModule
base size m = let room = grow size m in (room.bg, record room { bg_size = size })

pub commit_bg : RomModule → Bool × RomModule
commit_bg m =
    if m.bg_hash == cksum (take m.bg_size (bytes_at m.bg m))
    then (true, record m { bg = other m.bg })
    else (false, m)

-- `write_ptr` points to the start of a dataspace, or is null.
pub record Receiver : Type 0 where
  pub write_ptr : Option Side
  pub buf_size : ℕ
  pub offset : ℕ
  pub window_id : ℕ
  pub window_length : ℕ
  pub next_packet_id : ℕ
  pub omit_nack : Bool
  pub scheduled : Bool
  pub registered : Bool

-- `notified` counts the calls of `notify_clients`; `tx` are the packets submitted, newest first.
pub record Client : Type 0 where
  pub receiver : Receiver
  pub rom_module : RomModule
  pub remotename : List ℕ
  pub notified : ℕ
  pub tx : List Packet

-- The accessors of `Content_receiver`, which ask the frontend if there is one.
abbrev pub receiver_hash : Client → ℕ
receiver_hash c = if c.receiver.registered then c.rom_module.bg_hash else 0

abbrev pub receiver_name : Client → List ℕ
receiver_name c = if c.receiver.registered then c.remotename else []

abbrev pub write_offset : Receiver → ℕ
write_offset r = add_size r.offset (mul_size r.next_packet_id 1350)

abbrev pub window_complete : Receiver → Bool
window_complete r = r.next_packet_id == r.window_length

abbrev pub is_complete : Receiver → Bool
is_complete r = leb r.buf_size (write_offset r)

pub submit : Body → Client → Client
submit body c = record c { tx = make_packet (receiver_name c) (receiver_hash c) body ∷ c.tx }

-- `Backend_client::send_ack`
pub send_ack : Client → Client
unfolding submit
send_ack c = submit (ack_packet (make_ack c.receiver.window_id c.receiver.next_packet_id)) c

-- `Content_receiver::start_new_content`, with the one of `Main` and `Rom_module::base`.
pub start_new_content : ℕ → ℕ → Client → Client
unfolding base
start_new_content hash size c =
    let (ptr, m) = base size (record c.rom_module { bg_hash = hash }) in
    if c.receiver.registered
    then record c {
      rom_module = m;
      receiver = record c.receiver {
        write_ptr = some ptr;
        buf_size = size;
        offset = 0;
        window_id = 0;
        window_length = 0;
        next_packet_id = 0;
        omit_nack = false;
        scheduled = false;
      };
    }
    else c

-- `Backend_client::update`
pub request_update : List ℕ → Client → Client
unfolding submit
request_update name c =
    if list_eq name (receiver_name c) then submit (update (u32 c.receiver.buf_size)) c else c

-- `Main::commit_new_content`
pub commit_new_content : Client → Client
unfolding commit_bg
commit_new_content c =
    let (done, m) = commit_bg c.rom_module in
    if done then record c { rom_module = m; notified = c.notified + 1 } else c

-- The state after `_start_window`.
abbrev pub start_window : ℕ → Receiver → Receiver
start_window length r = record r {
  offset = add_size r.offset (mul_size r.window_length 1350);
  window_id = (if ltb 0 r.next_packet_id then add_size r.window_id 1 else r.window_id);
  window_length = length;
  next_packet_id = 0;
}

-- `_write` of `len` bytes that `data` points to.
write_bytes : List ℕ → ℕ → Option Side → Client → Client
write_bytes bytes size none c = c
write_bytes bytes size (some ptr) c =
    let offset = write_offset c.receiver in
    let len = min size (sub_size c.receiver.buf_size offset) in
    if leb c.receiver.buf_size offset then c else record c {
      rom_module =
          store_at ptr (overwrite (bytes_at ptr c.rom_module) offset (take len bytes)) c.rom_module;
    }

pub write : DataPacket → Client → Client
unfolding write_bytes
write p c =
    if p.packet_id == c.receiver.next_packet_id
    then write_bytes p.content p.payload_size c.receiver.write_ptr c
    else c

abbrev pub with_receiver : Client → Receiver → Client
with_receiver c r = record c { receiver = r }

-- A packet with another window id: the last one of the previous window rolls back to its end.
pub accept_other_window : DataPacket → Client → Client
accept_other_window p c =
    if p.window_id == sub_size r.window_id 1 && p.packet_id == sub_size p.window_length 1
    then send_ack (
        with_receiver c (record r {
          offset = sub_size r.offset (mul_size r.window_length 1350);
          window_id = p.window_id;
          window_length = p.window_length;
          next_packet_id = p.window_length;
        }))
    else c
  where
    open c use {receiver as r}

-- A packet of this window other than the next one: one NACK is sent.
pub accept_other_packet : Client → Client
accept_other_packet c =
    if c.receiver.omit_nack
    then c
    else (let nacked = send_ack c in
        with_receiver nacked (record nacked.receiver { omit_nack = true }))

-- The next packet of this window is stored and counted,
pub count_packet : DataPacket → Client → Client
count_packet p c =
    let seen = with_receiver c (record c.receiver { omit_nack = false }) in
    let written = write p seen in
    with_receiver written
      (record written.receiver { next_packet_id = add_size written.receiver.next_packet_id 1 })

-- the end of the window is acknowledged,
pub ack_window : Client → Client
ack_window c = if window_complete c.receiver then send_ack c else c

-- and the end of the content is committed.
pub conclude : Client → Client
conclude c =
    if is_complete c.receiver
    then commit_new_content c
    else with_receiver c (record c.receiver { scheduled = true })

pub accept_next_packet : DataPacket → Client → Client
accept_next_packet p c = conclude (ack_window (count_packet p c))

-- `accept_packet` within a window that is started.
pub accept_in_window : DataPacket → Client → Client
accept_in_window p c =
    if p.window_id == c.receiver.window_id
    then (if p.packet_id == c.receiver.next_packet_id
        then accept_next_packet p c
        else accept_other_packet c)
    else accept_other_window p c

abbrev pub started : DataPacket → Receiver → Receiver
started p r = if window_complete r then start_window p.window_length r else r

-- The rest of `accept_packet`, once the window of the packet may have been started.
pub accept_started : DataPacket → Receiver → Client → Client
accept_started p r c =
    if window_complete c.receiver && leb r.buf_size r.offset
    then with_receiver c r
    else accept_in_window p (with_receiver c r)

-- `Content_receiver::accept_packet`, less its result, which no caller reads.
pub accept_packet : DataPacket → Client → Client
accept_packet p c =
    if is_complete c.receiver || not c.receiver.registered
    then c
    else accept_started p (started p (record c.receiver { scheduled = false })) c

-- `Content_receiver::timeout_handler`: a one-shot timeout is no longer scheduled when it fires.
pub timeout_handler : Client → Client
timeout_handler c = send_ack (with_receiver c (record c.receiver { scheduled = false }))

receive_body : Body → Packet → Client → Client
receive_body (signal size) p c =
    request_update p.module_name (start_new_content p.content_hash size c)
-- `consume_head` throws where the frame is too short for the payload.
receive_body (data_packet d) p c =
    if list_eq p.module_name (receiver_name c)
    then (if p.content_hash == receiver_hash c
        then (if leb d.payload_size (length d.content) then accept_packet d c else c)
        else c)
    else c
receive_body (update size) p c = c
receive_body (ack_packet a) p c = c
receive_body (unknown n) p c = c

-- `Backend_client::receive`
pub receive : Packet → Client → Client
unfolding receive_body
receive p c = receive_body p.body p c

-- The packets of the receive queue in turn, as `_handle_rx_packet` of base.cc hands them over.
unfoldable pub handle_packets : List Packet → Client → Client
unfolding receive receive_body accept_packet accept_started accept_in_window accept_next_packet
    accept_other_packet accept_other_window conclude ack_window count_packet write write_bytes
    commit_new_content commit_bg request_update start_new_content base grow send_ack submit cksum
    list_eq overwrite
handle_packets [] c = c
handle_packets (p ∷ ps) c = handle_packets ps (receive p c)
