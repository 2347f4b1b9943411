-- ===== src/RemoteRom/Server.antt =====
-- The server side: `Content_sender` and `Backend_server` of
-- src/lib/remote_rom/backend/nic_ip/server.cc, with the frontend `Rom_forwarder` of
-- src/proxy/remote_rom/server/main.cc.
pub mod Send
pub mod Serves
pub mod Receive
pub mod Updates
pub mod Resend
pub mod Acks
mod Tests
use genode_world.Prelude.{
  ℕ, zero, suc, ◌-◌, ◌==◌, Bool, true, false, List, [], ◌∷◌, ◌++◌, min, length, take, drop,
  replicate, list_eq, ltb, leb, if◌then◌else◌, add_size, sub_size, mul_size, u32,
}
use genode_world.RemoteRom.Packet.{
  Packet, Body, signal, update, data_packet, ack_packet, unknown, AckPacket, make_packet, make_data,
}
use genode_world.RemoteRom.Cksum.{cksum}
use genode_world.RemoteRom.Window.{calculate_window_size}

-- A ROM dataspace.
pub record Rom : Type 0 where
  pub valid : Bool
  pub bytes : List ℕ

-- `pending` is what the parent's ROM session delivers at the next `_rom.update()`.
pub record Forwarder : Type 0 where
  pub rom : Rom
  pub pending : Rom
  pub binary : Bool
  pub modulename : List ℕ
  pub current_hash : ℕ
  pub transmitting : Bool
  pub update_received : Bool

-- `registered` says that `_frontend` is not null, `scheduled` that the timeout is.
pub record Sender : Type 0 where
  pub data_size : ℕ
  pub window_length : ℕ
  pub window_id : ℕ
  pub offset : ℕ
  pub packet_id : ℕ
  pub errors : ℕ
  pub scheduled : Bool
  pub registered : Bool

-- `tx` are the packets submitted so far, the newest first.
pub record Server : Type 0 where
  pub sender : Sender
  pub forwarder : Forwarder
  pub tx : List Packet

-- The frontend.

strlen : List ℕ → ℕ
strlen [] = 0
strlen (b ∷ bs) = let rest = suc (strlen bs) in if b == 0 then 0 else rest

pub content_size : Forwarder → ℕ
unfolding strlen
content_size f =
    if f.rom.valid
    then (if f.binary then length f.rom.bytes else min (strlen f.rom.bytes) (length f.rom.bytes))
    else 0

-- What is written to the packet, all of the `dst_len` bytes or none.
pub transfer_content : Forwarder → ℕ → ℕ → List ℕ
transfer_content f dst_len offset =
    let len = min dst_len (sub_size (content_size f) offset) in
    if f.rom.valid then take len (drop offset f.rom.bytes) ++ replicate (dst_len - len) 0 else []

-- The accessors of `Content_sender`, which ask the frontend if there is one.
abbrev pub sender_hash : Server → ℕ
sender_hash s = if s.sender.registered then s.forwarder.current_hash else 0

abbrev pub sender_name : Server → List ℕ
sender_name s = if s.sender.registered then s.forwarder.modulename else []

pub sender_size : Server → ℕ
sender_size s = if s.sender.registered then content_size s.forwarder else 0

pub submit : Body → Server → Server
submit body s = record s { tx = make_packet (sender_name s) (sender_hash s) body ∷ s.tx }

-- `Backend_server::send_update`
pub send_update : Server → Server
unfolding submit sender_size
send_update s = if sender_size s == 0 then s else submit (signal (u32 (sender_size s))) s

-- `Rom_forwarder::update`
pub forwarder_update : Server → Server
unfolding send_update
forwarder_update s =
    if f.transmitting
    then record s { forwarder = record f { update_received = true } }
    else (let refreshed = record f { update_received = false; rom = f.pending } in
        if f.pending.valid
        then send_update (record s {
          forwarder = record refreshed {
            current_hash = cksum (take (content_size refreshed) f.pending.bytes);
          };
        })
        else record s { forwarder = refreshed })
  where
    open s use {forwarder as f}

pub start_transmission : Server → Server
start_transmission s = record s { forwarder = record s.forwarder { transmitting = true } }

pub finish_transmission : Server → Server
unfolding forwarder_update
finish_transmission s =
    let done = record s { forwarder = record s.forwarder { transmitting = false } } in
    if s.forwarder.update_received then forwarder_update done else done

-- The sender.

abbrev pub window_complete : Sender → Bool
window_complete c = c.packet_id == c.window_length

abbrev pub transmission_complete : Sender → Bool
transmission_complete c = leb c.data_size c.offset

abbrev pub data_offset : Sender → ℕ
data_offset c = add_size c.offset (mul_size c.packet_id 1350)

abbrev pub is_transmitting : Sender → Bool
is_transmitting c = ltb 0 c.packet_id

abbrev pub payload_size : Sender → ℕ
payload_size c = min (sub_size c.data_size (data_offset c)) 1350

abbrev pub reset : Sender → Sender
reset c = record c {
  offset = 0;
  packet_id = 0;
  window_id = 0;
  data_size = 0;
  window_length = 0;
  errors = 0;
}

abbrev pub go_back : ℕ → Sender → Sender
go_back packet_id c = record c { packet_id = packet_id }

-- `_next_window` by the advanced offset.
abbrev pub advance : Sender → Sender
advance c = record c { offset = add_size c.offset (mul_size c.window_length 1350) }

abbrev pub enter_window : Sender → Sender
enter_window c = record c {
  window_id = add_size c.window_id 1;
  window_length = calculate_window_size (sub_size c.data_size c.offset);
  packet_id = 0;
}

-- `Backend_server::send_packet`
pub send_packet : Server → Server
unfolding submit
send_packet s =
    let bytes = transfer_content s.forwarder (payload_size c) (data_offset c) in
    submit (data_packet (make_data c.window_id c.window_length c.packet_id (length bytes) bytes)) s
  where
    open s use {sender as c}

-- `send_packet`, and the count of `_next_packet`.
pub send_next : Server → Server
send_next s =
    let sent = send_packet s in
    record sent { sender = record s.sender { packet_id = add_size s.sender.packet_id 1 } }

-- `do { send_packet } while (_next_packet ())`, with at most `fuel` packets.
pub send_packets : ℕ → Server → Server
send_packets zero s = s
send_packets (suc fuel) s = elim (ltb (add_size s.sender.packet_id 1) s.sender.window_length) [
  | true ↦ send_packets fuel (send_next s)
  | false ↦ send_next s
]

-- The loop, and the timeout behind it.
pub send_window : Server → Server
send_window s = record sent { sender = record sent.sender { scheduled = true } }
  where
    sent : Server
    sent = send_packets (suc (s.sender.window_length - s.sender.packet_id)) s

-- The branches of `transmit`, behind its reset of the timeout and the error count.
pub restart_transmission : Server → Server
restart_transmission s =
    let begun = start_transmission s in
    let size = content_size begun.forwarder in
    send_window (record begun {
      sender = record (reset s.sender) {
        data_size = size;
        window_length = calculate_window_size size;
      };
    })

pub continue_transmission : Server → Server
continue_transmission s =
    let next = record s { sender = advance s.sender } in
    if transmission_complete next.sender
    then (let finished = finish_transmission next in
        if is_transmitting finished.sender
        then record finished { sender = reset finished.sender }
        else finished)
    else send_window (record next { sender = enter_window next.sender })

abbrev pub stop_timeout : Server → Server
stop_timeout s = record s { sender = record s.sender { scheduled = false; errors = 0 } }

-- `Content_sender::transmit`, less its result, which no caller reads.
pub transmit : Bool → Server → Server
transmit restart s =
    if s.sender.registered
    then (let quiet = stop_timeout s in
        if restart
        then (if transmission_complete s.sender then restart_transmission quiet else quiet)
        else (if window_complete s.sender then continue_transmission quiet else send_window quiet))
    else s

-- The first timeout sends the window again, the second one cancels the transmission.
pub retry_or_cancel : Server → Server
retry_or_cancel s =
    if s.sender.errors == 0
    then transmit false (record s { sender = go_back 0 s.sender })
    else finish_transmission (record s { sender = reset s.sender })

-- `Content_sender::timeout_handler`: a one-shot timeout is no longer scheduled when it fires.
pub timeout_handler : Server → Server
timeout_handler s =
    let after = retry_or_cancel (record s { sender = record s.sender { scheduled = false } }) in
    record after { sender = record after.sender { errors = add_size after.sender.errors 1 } }

-- Whether a packet names the module and the version that are served.
abbrev pub names_content : Packet → Server → Bool
names_content p s =
    if list_eq p.module_name (sender_name s) then p.content_hash == sender_hash s else false

pub receive_ack : AckPacket → Server → Server
receive_ack a s =
    if a.window_id == s.sender.window_id
    then transmit false (
        if ltb a.ack_until s.sender.packet_id
        then record s { sender = go_back a.ack_until s.sender }
        else s)
    else s

receive_body : Body → Packet → Server → Server
receive_body (update size) p s = if names_content p s then transmit true s else s
receive_body (ack_packet a) p s =
    if is_transmitting s.sender then (if names_content p s then receive_ack a s else s) else s
receive_body (signal size) p s = s
receive_body (data_packet d) p s = s
receive_body (unknown n) p s = s

-- `Backend_server::receive`
pub receive : Packet → Server → Server
unfolding receive_body
receive p s = receive_body p.body p s

-- The packets of the receive queue in turn, as `_handle_rx_packet` of base.cc hands them over.
unfoldable pub handle_packets : List Packet → Server → Server
unfolding receive receive_body receive_ack transmit continue_transmission restart_transmission
    send_window send_packets send_next send_packet finish_transmission start_transmission
    forwarder_update send_update submit sender_size transfer_content content_size strlen cksum
    calculate_window_size list_eq
handle_packets [] s = s
handle_packets (p ∷ ps) s = handle_packets ps (receive p s)
