-- ===== src/RemoteRom/Client/Tests.antt =====
-- The theorems about packets that upset the client, at concrete ones.
use genode_world.Prelude.{list_eq, ◌≡◌, refl, true, [], ◌∷◌, arith, some}
use genode_world.RemoteRom.Packet.{Packet, DataPacket, signal, make_packet, make_data}
use genode_world.RemoteRom.Client.{Client, accept_packet, receive, right}
use genode_world.RemoteRom.Client.Upsets.{
  ShortLast, LateEnd, late_packet_stalls, foreign_signal_discards,
}
use genode_world.RemoteRom.Sample.{client}

-- A client that has got one packet of the second window of 1217000 bytes.
abbrev in_last : Client
in_last = record client {
  receiver = record client.receiver {
    write_ptr = some right;
    buf_size = 1217000;
    offset = 1215000;
    window_id = 1;
    window_length = 2;
    next_packet_id = 1;
    scheduled = true;
  };
}

abbrev late : DataPacket
late = make_data 0 900 899 1350 []

last_of_two : ShortLast in_last.receiver
last_of_two = record {
  short = omega arith;
  behind = omega arith;
  partial = omega arith;
  last = omega arith;
  more = omega arith;
  small = omega arith;
}

late_end : LateEnd late in_last.receiver
late_end = record { window = refl; narrow = omega arith; id = refl; length = refl }

late_packet_stalls_at_sample :
    ((accept_packet late in_last).rom_module ≡ in_last.rom_module)
    × (accept_packet (make_data 1 2 1 650 []) (accept_packet late in_last)
        ≡ accept_packet late in_last)
late_packet_stalls_at_sample =
    late_packet_stalls late (make_data 1 2 1 650 []) in_last refl last_of_two late_end

abbrev foreign : Packet
foreign = make_packet (115 ∷ []) 17 (signal 5)

foreign_signal_discards_at_sample :
    let d = receive foreign in_last in
    (d.receiver.buf_size ≡ 5)
    × (d.receiver.offset ≡ 0)
    × (d.receiver.next_packet_id ≡ 0)
    × (d.rom_module.bg_hash ≡ 17)
    × (d.tx ≡ in_last.tx)
unfolding list_eq
foreign_signal_discards_at_sample = foreign_signal_discards foreign 5 in_last refl refl refl
