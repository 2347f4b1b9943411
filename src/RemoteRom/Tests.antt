-- ===== src/RemoteRom/Tests.antt =====
-- Runs of the ROM transfer at a content of three bytes, and the theorems at these.
use genode_world.Prelude.{◌<◌, ◌≡◌, refl, sym, ◌^◌, inl, true, false, [], ◌∷◌, arith, take}
use genode_world.RemoteRom.Cksum.{cksum}
use genode_world.RemoteRom.Window.{calculate_window_size}
use genode_world.RemoteRom.Server
use genode_world.RemoteRom.Server.{Server, Sender, Forwarder, Rom}
use genode_world.RemoteRom.Server.Serves.{Serves}
use genode_world.RemoteRom.Client
use genode_world.RemoteRom.Client.{
  Client, Receiver, RomModule, accept_packet, start_new_content, left, right, fg_bytes, is_complete,
}
use genode_world.RemoteRom.Transfer.{Genuine}
use genode_world.RemoteRom.Client.Accept.{Steps, accept_packet-Steps}
use genode_world.RemoteRom.Client.Frame.{Timely}
use genode_world.RemoteRom.Client.Holds.{Holds}
use genode_world.RemoteRom.Client.InOrder.{
  InOrder, done, more, accept_packets, accept_packets_complete,
}
use genode_world.RemoteRom.Client.Safety.{
  CheckedSwap, Untouched, accept_packet_bounded, accept_packet_checked,
}
use genode_world.RemoteRom.Client.Start.{start-Holds, start_position}
use genode_world.RemoteRom.Link.Inv.{Inv, Step-Inv}
use genode_world.RemoteRom.Server.Receive.{receive-Serves, timeout-Serves}
use genode_world.RemoteRom.Link.{Reach, here, next, to_client, to_server, Step}
use genode_world.RemoteRom.Link.Transfer.{
  announced-Inv, Ready, transfer_correct, transfer_atomic, InOrder-delivers,
}
use genode_world.RemoteRom.Sample.{
  content, server, client, request, part, delivery, start, asked, finished,
}

serves : Serves content 0 server
unfolding Server.handle_packets
serves = record {
  small = omega arith;
  nonempty = omega arith;
  loaded = record { valid = refl; size = refl; bytes = refl };
  calm = refl;
  frontend = refl;
  state = inl (record {
    data_size = refl;
    offset = refl;
    packet_id = refl;
    window_id = refl;
    timeout = refl;
  });
  behind = omega arith;
  sent = tt;
}

ready : Ready content server client
ready = record { serves = serves; frontend = refl; acks = (tt, tt) }

asked-Step : Step start asked
unfolding Client.handle_packets
asked-Step = to_server start request (inl refl)

asked-Reach : Reach start asked
asked-Reach = next here asked-Step

finished-Reach : Reach start finished
unfolding Client.handle_packets Server.handle_packets
finished-Reach = next asked-Reach (to_client asked delivery (inl refl) (λ e. absurd (omega arith)))

finished_complete : is_complete finished.client.receiver ≡ true
unfolding Client.handle_packets Server.handle_packets
finished_complete = refl

asked_incomplete : is_complete asked.client.receiver ≡ false
unfolding Client.handle_packets Server.handle_packets
asked_incomplete = refl

transfer_correct_example : take 3 (fg_bytes finished.client.rom_module) ≡ content
transfer_correct_example =
    transfer_correct content server client finished ready finished-Reach finished_complete

transfer_atomic_example : fg_bytes asked.client.rom_module ≡ 1 ∷ []
transfer_atomic_example =
    transfer_atomic content server client asked ready asked-Reach asked_incomplete

part-Genuine : Genuine content part
unfolding calculate_window_size
part-Genuine = record {
  window_in = omega arith;
  packet_in = omega arith;
  window_len = refl;
  size = refl;
  bytes = refl;
}

parts : InOrder content 0 (part ∷ [])
parts = more {next = 1350} part-Genuine refl refl done

InOrder-delivers_example :
    let d = accept_packets (part ∷ []) (start_new_content (cksum content) 3 client) in
    (is_complete d.receiver ≡ true) × (take 3 (fg_bytes d.rom_module) ≡ content)
InOrder-delivers_example =
    InOrder-delivers content client (part ∷ []) refl (omega arith) (omega arith) parts (omega arith)

Step-Inv_example : Inv content (1 ∷ []) left asked
Step-Inv_example = Step-Inv asked-Step (announced-Inv content server client ready)

receive-Serves_example : Serves content 0 (Server.receive request server)
receive-Serves_example = receive-Serves content 0 server serves request tt

timer_set : asked.server.sender.scheduled ≡ true
unfolding Server.handle_packets
timer_set = refl

timeout-Serves_at_sample : Serves content 0 (Server.timeout_handler asked.server)
timeout-Serves_at_sample = timeout-Serves content 0 asked.server receive-Serves_example timer_set

start-Holds_at_sample : Holds content left (start_new_content (cksum content) 3 client)
start-Holds_at_sample = start-Holds content client refl (omega arith) (omega arith)

accept_packets_complete_at_sample :
    is_complete (accept_packets (part ∷ []) start.client).receiver ≡ true
accept_packets_complete_at_sample =
    accept_packets_complete {sd = left} start.client parts start-Holds_at_sample
      (sym (start_position content client refl (omega arith) (omega arith))) (omega arith)

timely : Timely part start.client.receiver
unfolding Client.handle_packets
timely = record { not_ahead = omega arith; not_late = λ e. absurd (omega arith) }

accept_packet-Steps_example : Steps content left start.client (accept_packet part start.client)
accept_packet-Steps_example =
    accept_packet-Steps content part left part-Genuine start.client start-Holds_at_sample timely

accept_packet_checked_example :
    CheckedSwap start.client.rom_module (accept_packet part start.client).rom_module
accept_packet_checked_example = accept_packet_checked part start.client

small_start : start.client.receiver.buf_size < 2 ^ 64
unfolding Client.handle_packets
small_start = omega arith

accept_packet_bounded_example :
    Untouched start.client.receiver.buf_size start.client.rom_module
      (accept_packet part start.client).rom_module
accept_packet_bounded_example = accept_packet_bounded part start.client small_start
