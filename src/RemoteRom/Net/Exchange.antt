-- ===== src/RemoteRom/Net/Exchange.antt =====
-- Frames between two hosts: the resolution of an address, and the way of a packet.
use genode_world.Prelude.{
  ℕ, ◌≡◌, ◌≢◌, refl, sym, ap, ◌∙◌, true, false, ◌==◌, ◌&&◌, not, List, ◌∷◌, some, arith, if-true,
  if-false,
}
use genode_world.RemoteRom.Packet.{Packet}
use genode_world.RemoteRom.Net.{
  Net, Nic, Frame, arp, ipv4, mac_broadcast, request, reply, arp_request, submit_tx_packet, send,
  transmit, prepare_ipv4, prepare_udp, handle_arp, handle_arp_request, handle_ethernet,
}

-- A NIC session that takes any frame.
pub record Open (nic : Nic) : Type 0 where
  pub ready : (l : List Frame) → nic.ready_to_submit l ≡ true
  pub room : (l : List Frame) → nic.room l ≡ true

-- The request for the address of the other side, and the answer of the host `mac`.
abbrev pub request_of : Net → Frame
request_of n = record {
  dst = mac_broadcast;
  src = n.mac_address;
  content = arp (record {
    ethernet_ipv4 = true;
    opcode = request;
    src_mac = n.mac_address;
    src_ip = n.src_ip;
    dst_mac = mac_broadcast;
    dst_ip = n.dst_ip;
  });
}

abbrev pub answer_of : Net → ℕ → Frame
answer_of n mac = record {
  dst = n.mac_address;
  src = mac;
  content = arp (record {
    ethernet_ipv4 = true;
    opcode = reply;
    src_mac = mac;
    src_ip = n.dst_ip;
    dst_mac = n.mac_address;
    dst_ip = n.src_ip;
  });
}

module _ (nic : Nic) (o : Open nic) where
  submit_open : (f : Frame) (n : Net) → submit_tx_packet nic f n ≡ record n { tx = f ∷ n.tx }
  unfolding submit_tx_packet
  submit_open f n = if-true _ _ _ (o.ready n.tx)

  module _ (n : Net) (unknown : n.dst_mac ≡ mac_broadcast) (idle : n.arp_waiting ≡ false) where
    asks : arp_request nic n ≡ record n { arp_waiting = true; tx = request_of n ∷ n.tx }
    unfolding arp_request
    asks =
        let first : (n.dst_mac == mac_broadcast && not n.arp_waiting) ≡ true =
          ground (arith, unknown, idle) in
        if-true _ _ _ first ∙ submit_open (request_of n) (record n { arp_waiting = true })

  answers :
      (n m : Net)
      → n.dst_ip ≡ m.accept_ip
      → handle_arp nic
          (record {
            ethernet_ipv4 = true;
            opcode = request;
            src_mac = n.mac_address;
            src_ip = n.src_ip;
            dst_mac = mac_broadcast;
            dst_ip = n.dst_ip;
          })
          m
        ≡ record m { tx = answer_of n m.mac_address ∷ m.tx }
  unfolding handle_arp handle_arp_request send
  answers n m at =
      let here : (n.dst_ip == m.accept_ip) ≡ true = ground arith in
      if-true _ _ _ here ∙ if-true _ _ _ (o.room m.tx) ∙ submit_open (answer_of n m.mac_address) m

-- The reply to the request of a host that is known by its address.
module _ (nic : Nic) (n : Net) (mac : ℕ) (waiting : n.arp_waiting ≡ true) where
  resolved :
      n.src_ip ≡ n.accept_ip
      → (handle_ethernet nic (answer_of n mac) n).0
        ≡ record n { dst_mac = mac; arp_waiting = false }
  unfolding handle_ethernet
  resolved own =
      let here : (n.src_ip == n.accept_ip) ≡ true = ground arith in
      let expected : (n.arp_waiting && n.dst_ip == n.dst_ip) ≡ true = ground (arith, waiting) in
      if-true _ _ _ here ∙ if-true _ _ _ expected

  not_mine : n.src_ip ≢ n.accept_ip → (handle_ethernet nic (answer_of n mac) n).0 ≡ n
  unfolding handle_ethernet
  not_mine other =
      let away : (n.src_ip == n.accept_ip) ≡ false = ground (arith, other) in if-false _ _ _ away

-- If a host does not know the address of the other side and waits for none, uses its own IP
-- address as the one it accepts, and the other side accepts the address that it asks for: its
-- request, the other side's answer to this and what the host makes of the answer resolve the
-- address of the other side, if the NIC sessions take any frame.
pub arp_resolves :
    (nic : Nic) (a b : Net)
    → Open nic
    → a.dst_mac ≡ mac_broadcast
    → a.arp_waiting ≡ false
    → a.src_ip ≡ a.accept_ip
    → a.dst_ip ≡ b.accept_ip
    → let asked = arp_request nic a in
      (asked.tx ≡ request_of a ∷ a.tx)
      × ((handle_ethernet nic (request_of a) b).0.tx ≡ answer_of a b.mac_address ∷ b.tx)
      × ((handle_ethernet nic (answer_of a b.mac_address) asked).0.dst_mac ≡ b.mac_address)
unfolding handle_ethernet
arp_resolves nic a b o unknown idle own peer =
    let e = asks nic o a unknown idle in
    let waiting : Net = record a { arp_waiting = true; tx = request_of a ∷ a.tx } in
    (
      ap (λ n. n.tx) e,
      ap (λ n. n.tx) (answers nic o a b peer),
      ap (λ n. (handle_ethernet nic (answer_of a b.mac_address) n).0.dst_mac) e
          ∙ ap (λ n. n.dst_mac) (resolved nic waiting b.mac_address refl own),
    )

silent :
    (nic : Nic) (n : Net)
    → (n.dst_mac == mac_broadcast && not n.arp_waiting) ≡ false
    → arp_request nic n ≡ n
unfolding arp_request
silent nic n quiet = if-false _ _ _ quiet

-- A host whose own IP address is not the one that it accepts, which does not know the address of
-- the other side and waits for none, ignores the answer to its request, and never sends another
-- request, if the NIC session takes any frame.
pub unconfigured_unresolved :
    (nic : Nic) (a : Net) (mac : ℕ)
    → Open nic
    → a.dst_mac ≡ mac_broadcast
    → a.arp_waiting ≡ false
    → a.src_ip ≢ a.accept_ip
    → let asked = arp_request nic a in
      ((handle_ethernet nic (answer_of a mac) asked).0 ≡ asked) × (arp_request nic asked ≡ asked)
unconfigured_unresolved nic a mac o unknown idle foreign =
    let e = asks nic o a unknown idle in
    let waiting : Net = record a { arp_waiting = true; tx = request_of a ∷ a.tx } in
    let once : (a.dst_mac == mac_broadcast && false) ≡ false = ground (arith, unknown) in
    (
      ap (λ n. (handle_ethernet nic (answer_of a mac) n).0) e
          ∙ not_mine nic waiting mac refl foreign
          ∙ sym e,
      ap (arp_request nic) e ∙ silent nic waiting once ∙ sym e,
    )

arp_request_rest :
    (nic : Nic) (n : Net)
    → ((arp_request nic n).dst_ip ≡ n.dst_ip) × ((arp_request nic n).udp_port ≡ n.udp_port)
unfolding arp_request submit_tx_packet
arp_request_rest nic n = ground arith

-- The packet in a frame of the host `a` that reaches the host `b`.
abbrev frame_of : Packet → Net → Frame
frame_of p a = record { dst = a.dst_mac; src = a.mac_address; content = ipv4 (prepare_ipv4 p a) }

accepts :
    (nic : Nic) (p : Packet) (a b : Net)
    → a.dst_ip ≡ b.accept_ip
    → a.udp_port ≡ b.udp_port
    → (handle_ethernet nic (frame_of p a) b).1 ≡ some p
unfolding handle_ethernet prepare_ipv4 prepare_udp
accepts nic p a b peer port = ground (arith, peer, port)

-- A packet that a host transmits, over a NIC session that takes any frame, is one frame behind the
-- address request if one is sent, and another host that accepts the destination's IP address and
-- uses the same port receives exactly this packet from it.
pub packet_arrives :
    (nic : Nic) (p : Packet) (a b : Net)
    → Open nic
    → a.dst_ip ≡ b.accept_ip
    → a.udp_port ≡ b.udp_port
    → (f : Frame) × (((transmit nic p a).tx ≡ f ∷ (arp_request nic a).tx)
        × ((handle_ethernet nic f b).1 ≡ some p))
unfolding transmit
packet_arrives nic p a b o peer port =
    let asked : Net = arp_request nic a in
    let rest = arp_request_rest nic a in
    (
      frame_of p asked,
      (
        ap (λ n. n.tx) (submit_open nic o (frame_of p asked) asked),
        accepts nic p asked b (rest.0 ∙ peer) (rest.1 ∙ port),
      ),
    )
