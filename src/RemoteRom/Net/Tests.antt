-- ===== src/RemoteRom/Net/Tests.antt =====
-- The theorems about the network layer at two hosts.
use genode_world.Prelude.{◌≡◌, ◌≢◌, refl, true, false, [], ◌∷◌, some, arith}
use genode_world.RemoteRom.Packet.{Packet, update, make_packet}
use genode_world.RemoteRom.Net.{
  Net, Nic, Frame, Udp, ipv4, mac_broadcast, ip_broadcast, arp_request, transmit, handle_ethernet,
}
use genode_world.RemoteRom.Net.Exchange.{
  Open, request_of, answer_of, arp_resolves, unconfigured_unresolved, packet_arrives,
}
use genode_world.RemoteRom.Net.Filter.{Carries, only_addressed, address_kept}

abbrev nic : Nic
nic = record { ready_to_submit = λ l. true; room = λ l. true }

Open-nic : Open nic
Open-nic = record { ready = λ l. refl; room = λ l. refl }

abbrev host_a : Net
host_a = record {
  mac_address = 11;
  dst_mac = mac_broadcast;
  src_ip = 1;
  accept_ip = 1;
  dst_ip = 2;
  src_port = 51234;
  udp_port = 9009;
  arp_waiting = false;
  tx = [];
}

abbrev host_b : Net
host_b = record host_a { mac_address = 22; src_ip = 2; accept_ip = 2; dst_ip = 1 }

arp_resolves_example :
    let asked = arp_request nic host_a in
    (asked.tx ≡ request_of host_a ∷ [])
    × ((handle_ethernet nic (request_of host_a) host_b).0.tx ≡ answer_of host_a 22 ∷ [])
    × ((handle_ethernet nic (answer_of host_a 22) asked).0.dst_mac ≡ 22)
arp_resolves_example = arp_resolves nic host_a host_b Open-nic refl refl refl refl

abbrev unconfigured : Net
unconfigured = record host_a { src_ip = 0; accept_ip = ip_broadcast }

no_address : unconfigured.src_ip ≢ unconfigured.accept_ip
no_address e = omega arith

unconfigured_unresolved_at_sample :
    let asked = arp_request nic unconfigured in
    ((handle_ethernet nic (answer_of unconfigured 22) asked).0 ≡ asked)
    × (arp_request nic asked ≡ asked)
unconfigured_unresolved_at_sample =
    unconfigured_unresolved nic unconfigured 22 Open-nic refl refl no_address

abbrev packet : Packet
packet = make_packet (114 ∷ []) 3 (update 5)

packet_arrives_at_sample :
    (f : Frame) × (((transmit nic packet host_a).tx ≡ f ∷ (arp_request nic host_a).tx)
      × ((handle_ethernet nic f host_b).1 ≡ some packet))
packet_arrives_at_sample = packet_arrives nic packet host_a host_b Open-nic refl refl

abbrev udp_in : Udp
udp_in = record { src_port = 51234; dst_port = 9009; len = 84; packet = some packet }

abbrev frame_in : Frame
frame_in = record {
  dst = 22;
  src = 11;
  content = ipv4 (record {
    version = 4;
    header_length = 5;
    time_to_live = 10;
    protocol = 17;
    total_length = 104;
    src = 1;
    dst = 2;
    udp = some udp_in;
  });
}

taken : (handle_ethernet nic frame_in host_b).1 ≡ some packet
unfolding handle_ethernet
taken = refl

only_addressed_at_sample : Carries host_b packet frame_in.content
only_addressed_at_sample = only_addressed nic frame_in host_b packet taken

abbrev knowing : Net
knowing = record host_b { dst_mac = 33 }

known : knowing.dst_mac ≢ mac_broadcast
known e = omega arith

address_kept_at_sample : (handle_ethernet nic frame_in knowing).0.dst_mac ≡ 33
address_kept_at_sample = address_kept nic frame_in knowing known refl
