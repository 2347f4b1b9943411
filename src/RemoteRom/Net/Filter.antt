-- ===== src/RemoteRom/Net/Filter.antt =====
-- What the network layer lets through, and what it takes over from frames.
use genode_world.Prelude.{
  ℕ, ◌≡◌, ◌≢◌, refl, sym, ap, ◌∙◌, ◌⊎◌, inl, inr, Bool, false, ◌==◌, ◌&&◌, ◌||◌, Option, none, some,
  arith, if-true, if-false, Bool-cases,
}
use genode_world.RemoteRom.Packet.{Packet}
use genode_world.RemoteRom.Net.{
  Net, Nic, Frame, Arp, arp, ipv4, other, cut, Content, Ipv4, Udp, mac_broadcast, ip_broadcast,
  protocol_udp, submit_tx_packet, send, handle_arp, handle_arp_request, handle_ip, handle_ethernet,
  received, learn,
}

-- A frame that carries the packet `p` to the host.
pub record CarriedTo (n : Net) (p : Packet) (ip : Ipv4) : Type 0 where
  pub protocol : ip.protocol ≡ 17
  pub address : (n.accept_ip ≡ ip_broadcast) ⊎ (n.accept_ip ≡ ip.dst)
  pub udp : Udp
  pub payload : ip.udp ≡ some udp
  pub port : udp.dst_port ≡ n.udp_port
  pub packet : udp.packet ≡ some p

abbrev pub Carries : Net → Packet → Content → Type 0
Carries n p (arp a) = ⊥
Carries n p (ipv4 ip) = CarriedTo n p ip
Carries n p (other t) = ⊥
Carries n p cut = ⊥

none-some : (p : Packet) → ◌≡◌ {A = Option Packet} none (some p) → ⊥
none-some p e = cc

received_lem :
    (u : Option Udp) (n : Net) (p : Packet)
    → received u n ≡ some p
    → (udp : Udp) × ((u ≡ some udp) × ((udp.dst_port ≡ n.udp_port) × (udp.packet ≡ some p)))
unfolding received
received_lem none n p h = absurd (none-some p h)
received_lem (some udp) n p h = elim (Bool-cases (udp.dst_port == n.udp_port)) [
  | inl at ↦ (udp, (refl, (ground arith, sym (if-true _ _ _ at) ∙ h)))
  | inr away ↦ absurd (none-some p (sym (if-false _ _ _ away) ∙ h))
]

learn_port : (src : ℕ) (ip : Ipv4) (n : Net) → (learn src ip n).udp_port ≡ n.udp_port
unfolding learn
learn_port src ip n = ground arith

abbrev packet_of : Net × Option Packet → Option Packet
packet_of r = r.1

abbrev mine : Ipv4 → Net → Bool
mine ip n = (n.accept_ip == ip_broadcast || n.accept_ip == ip.dst) && ip.protocol == protocol_udp

handle_ip-CarriedTo :
    (src : ℕ) (ip : Ipv4) (n : Net) (p : Packet)
    → (handle_ip src ip n).1 ≡ some p
    → CarriedTo n p ip
unfolding handle_ip
handle_ip-CarriedTo src ip n p h = elim (Bool-cases (mine ip n)) [
  | inl yes_mine ↦
      let r =
        received_lem ip.udp (learn src ip n) p (sym (ap packet_of (if-true _ _ _ yes_mine)) ∙ h) in
      record {
        protocol = ground arith;
        address = ground arith;
        udp = r.0;
        payload = r.1.0;
        port = r.1.1.0 ∙ learn_port src ip n;
        packet = r.1.1.1;
      }
  | inr not_mine ↦ absurd (none-some p (sym (ap packet_of (if-false _ _ _ not_mine)) ∙ h))
]

-- If a frame hands a packet to `receive`, it is a UDP frame to the port of the host and, unless
-- the host accepts any address, to its IP address, and it carries this packet.
pub only_addressed :
    (nic : Nic) (f : Frame) (n : Net) (p : Packet)
    → (handle_ethernet nic f n).1 ≡ some p
    → Carries n p f.content
unfolding handle_ethernet
only_addressed nic f n p h = by_type f.content h
  where
    by_type :
        (c : Content)
        → (handle_ethernet nic (record f { content = c }) n).1 ≡ some p
        → Carries n p c
    by_type (arp a) e = none-some p e
    by_type (ipv4 ip) e = handle_ip-CarriedTo f.src ip n p e
    by_type (other t) e = none-some p e
    by_type cut e = none-some p e

arp_address :
    (nic : Nic) (a : Arp) (n : Net)
    → n.arp_waiting ≡ false
    → (handle_arp nic a n).dst_mac ≡ n.dst_mac
unfolding handle_arp handle_arp_request send submit_tx_packet
arp_address nic a n idle = ground (arith, idle)

ip_address :
    (src : ℕ) (ip : Ipv4) (n : Net)
    → n.dst_mac ≢ mac_broadcast
    → (handle_ip src ip n).0.dst_mac ≡ n.dst_mac
unfolding handle_ip learn
ip_address src ip n known = ground (arith, known)

-- A host that knows the address of the other side and waits for no answer keeps this address,
-- whatever frame arrives.
pub address_kept :
    (nic : Nic) (f : Frame) (n : Net)
    → n.dst_mac ≢ mac_broadcast
    → n.arp_waiting ≡ false
    → (handle_ethernet nic f n).0.dst_mac ≡ n.dst_mac
unfolding handle_ethernet
address_kept nic f n known idle = by_type f.content
  where
    by_type :
        (c : Content) → (handle_ethernet nic (record f { content = c }) n).0.dst_mac ≡ n.dst_mac
    by_type (arp a) = arp_address nic a n idle
    by_type (ipv4 ip) = ip_address f.src ip n known
    by_type (other t) = refl
    by_type cut = refl
