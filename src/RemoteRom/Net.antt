-- ===== src/RemoteRom/Net.antt =====
-- The network layer below both sides: `Backend_base` of src/lib/remote_rom/backend/nic_ip/base.h and
-- base.cc, which wraps packets into UDP and resolves the address of the other side by ARP.
pub mod Exchange
pub mod Filter
mod Tests
use genode_world.Prelude.{
  ℕ, ◌+◌, ◌-◌, ◌^◌, ◌==◌, ◌&&◌, ◌||◌, not, Bool, true, false, List, [], ◌∷◌, Option, none, some,
  length, if◌then◌else◌, u16,
}
use genode_world.RemoteRom.Packet.{
  Packet, Body, signal, update, data_packet, ack_packet, unknown, DataPacket,
}

-- Addresses are numbers of 48 and of 32 bits.
abbrev pub mac_broadcast : ℕ
mac_broadcast = 2 ^ 48 - 1

abbrev pub ip_broadcast : ℕ
ip_broadcast = 2 ^ 32 - 1

pub record Arp : Type 0 where
  pub ethernet_ipv4 : Bool
  pub opcode : ℕ
  pub src_mac : ℕ
  pub src_ip : ℕ
  pub dst_mac : ℕ
  pub dst_ip : ℕ

abbrev pub request : ℕ
request = 1

abbrev pub reply : ℕ
reply = 2

abbrev pub protocol_udp : ℕ
protocol_udp = 17

-- `none` stands for a frame that ends before the header of the remote ROM packet is complete.
pub record Udp : Type 0 where
  pub src_port : ℕ
  pub dst_port : ℕ
  pub len : ℕ
  pub packet : Option Packet

pub record Ipv4 : Type 0 where
  pub version : ℕ
  pub header_length : ℕ
  pub time_to_live : ℕ
  pub protocol : ℕ
  pub total_length : ℕ
  pub src : ℕ
  pub dst : ℕ
  pub udp : Option Udp

-- `cut` is a frame that ends before its next header is complete.
pub data Content : Type 0 where
  arp : Arp → Content
  ipv4 : Ipv4 → Content
  other : ℕ → Content
  cut : Content

pub record Frame : Type 0 where
  pub dst : ℕ
  pub src : ℕ
  pub content : Content

-- `tx` are the frames submitted to the NIC, the newest first.
pub record Net : Type 0 where
  pub mac_address : ℕ
  pub dst_mac : ℕ
  pub src_ip : ℕ
  pub accept_ip : ℕ
  pub dst_ip : ℕ
  pub src_port : ℕ
  pub udp_port : ℕ
  pub arp_waiting : Bool
  pub tx : List Frame

-- The NIC session: whether it takes a packet, and whether one can be allocated at once.
pub record Nic : Type 0 where
  pub ready_to_submit : List Frame → Bool
  pub room : List Frame → Bool

-- The size of a packet on the wire: 72 bytes of header, and the body.
pub packet_size : Packet → ℕ
packet_size p = 72 + body_size p.body
  where
    body_size : Body → ℕ
    body_size (signal n) = 4
    body_size (update n) = 4
    body_size (data_packet d) = 8 + length d.content
    body_size (ack_packet a) = 4
    body_size (unknown n) = 0

pub submit_tx_packet : Nic → Frame → Net → Net
submit_tx_packet nic f n = if nic.ready_to_submit n.tx then record n { tx = f ∷ n.tx } else n

-- `send`: the frame is dropped if no packet can be allocated.
pub send : Nic → Frame → Net → Net
unfolding submit_tx_packet
send nic f n = if nic.room n.tx then submit_tx_packet nic f n else n

-- `arp_request`
pub arp_request : Nic → Net → Net
unfolding submit_tx_packet
arp_request nic n =
    if n.dst_mac == mac_broadcast && not n.arp_waiting
    then submit_tx_packet nic
        (record {
          dst = mac_broadcast;
          src = n.mac_address;
          content = arp (record {
            ethernet_ipv4 = true;
            opcode = request;
            src_mac = n.mac_address;
            src_ip = n.src_ip;
            dst_mac = mac_broadcast;
            dst_ip = n.dst_ip;
          });
        })
        (record n { arp_waiting = true })
    else n

-- `prepare_udp`, with the length that is filled in at the end.
pub prepare_udp : Packet → Net → Udp
unfolding packet_size
prepare_udp p n = record {
  src_port = n.src_port;
  dst_port = n.udp_port;
  len = u16 (8 + packet_size p);
  packet = some p;
}

-- `prepare_ipv4`, with the length that is filled in at the end.
pub prepare_ipv4 : Packet → Net → Ipv4
unfolding prepare_udp
prepare_ipv4 p n = record {
  version = 4;
  header_length = 5;
  time_to_live = 10;
  protocol = protocol_udp;
  total_length = u16 (20 + (8 + packet_size p));
  src = n.src_ip;
  dst = n.dst_ip;
  udp = some (prepare_udp p n);
}

-- What `transmit_notification`, `send_ack` and `send_packet` have in common.
pub transmit : Nic → Packet → Net → Net
unfolding arp_request prepare_ipv4
transmit nic p n =
    let asked = arp_request nic n in
    submit_tx_packet nic
      (record {
        dst = asked.dst_mac;
        src = asked.mac_address;
        content = ipv4 (prepare_ipv4 p asked);
      })
      asked

-- `_handle_arp_request`: the frame is turned round.
pub handle_arp_request : Nic → Arp → Net → Net
unfolding send
handle_arp_request nic a n =
    send nic
      (record {
        dst = a.src_mac;
        src = n.mac_address;
        content = arp (record a {
          opcode = reply;
          dst_mac = a.src_mac;
          src_mac = n.mac_address;
          src_ip = a.dst_ip;
          dst_ip = a.src_ip;
        });
      })
      n

pub handle_arp : Nic → Arp → Net → Net
unfolding handle_arp_request
handle_arp nic a n =
    if a.ethernet_ipv4 && a.dst_ip == n.accept_ip
    then (if a.opcode == request
        then handle_arp_request nic a n
        else (if a.opcode == reply && (n.arp_waiting && a.src_ip == n.dst_ip)
            then record n { dst_mac = a.src_mac; arp_waiting = false }
            else n))
    else n

-- The address of the other side is taken from its first packet, if it is not known.
pub learn : ℕ → Ipv4 → Net → Net
learn src ip n =
    if n.dst_mac == mac_broadcast && ip.src == n.dst_ip then record n { dst_mac = src } else n

-- The packet that is handed to `receive`, if any.
pub received : Option Udp → Net → Option Packet
received none n = none
received (some udp) n = if udp.dst_port == n.udp_port then udp.packet else none

pub handle_ip : ℕ → Ipv4 → Net → Net × Option Packet
unfolding learn received
handle_ip src ip n =
    if (n.accept_ip == ip_broadcast || n.accept_ip == ip.dst) && ip.protocol == protocol_udp
    then (learn src ip n, received ip.udp (learn src ip n))
    else (n, none)

-- `handle_ethernet`: a frame that is cut raises an exception, which is caught here.
unfoldable pub handle_ethernet : Nic → Frame → Net → Net × Option Packet
unfolding handle_arp handle_ip transmit
handle_ethernet nic f n = by_type f.content
  where
    by_type : Content → Net × Option Packet
    by_type (arp a) = (handle_arp nic a n, none)
    by_type (ipv4 ip) = handle_ip f.src ip n
    by_type (other t) = (n, none)
    by_type cut = (n, none)
