-- ===== src/RemoteRom/Server/Tests.antt =====
-- The theorems about the server's events, at a content of three bytes.
use genode_world.Prelude.{◌≡◌, refl, true, false, [], ◌∷◌, arith, replicate}
use genode_world.RemoteRom.Packet.{update, make_packet, make_ack}
use genode_world.RemoteRom.Window.{calculate_window_size}
use genode_world.RemoteRom.Server
use genode_world.RemoteRom.Server.{
  Server, Sender, Forwarder, receive, receive_ack, timeout_handler, forwarder_update,
  finish_transmission, send_packets, reset, stop_timeout,
}
use genode_world.RemoteRom.Server.Send.{Loaded, send_packets-WindowSent, WindowSent}
use genode_world.RemoteRom.Server.Send.{InWindow}
use genode_world.RemoteRom.Server.Resend.{
  nack_resends, timeout_resends, timeout_cancels, packets_sent,
}
use genode_world.RemoteRom.Server.Acks.{
  WindowDone, ack_finishes, ack_sends_next, at_window, window_sent,
}
use genode_world.RemoteRom.Server.Updates.{
  Stalled, update_stops_timeout, Stalled-forever, update_deferred, long_name_ignored,
}
use genode_world.RemoteRom.Sample.{content, server, idle_sender, request}

-- A window of 3000 bytes, all of which is sent.
abbrev window : Sender
window = record idle_sender { data_size = 3000; window_length = 3; packet_id = 3; scheduled = true }

abbrev busy : Server
busy = record server { sender = window }

nack_resends_at_sample : receive_ack (make_ack 0 1) busy ≡ record busy {
  sender = record window { scheduled = true; errors = 0 };
  tx = packets_sent 2 1 busy [];
}
nack_resends_at_sample = nack_resends (make_ack 0 1) busy refl refl (omega arith) refl (omega arith)

timeout_resends_at_sample : timeout_handler busy ≡ record busy {
  sender = record window { packet_id = 3; scheduled = true; errors = 1 };
  tx = packets_sent 3 0 busy [];
}
timeout_resends_at_sample = timeout_resends busy refl refl (omega arith) (omega arith)

abbrev failed : Server
failed = record busy { sender = record window { errors = 1 } }

timeout_cancels_at_sample :
    let t = timeout_handler failed in
    (t.sender ≡ record (reset window) { scheduled = false; errors = 1 })
    × (t.forwarder.transmitting ≡ false)
timeout_cancels_at_sample = timeout_cancels failed (omega arith)

window_done : WindowDone window
window_done = record {
  sent = refl;
  nonempty = omega arith;
  full = omega arith;
  offset = omega arith;
  data_size = omega arith;
  window_id = omega arith;
}

ack_finishes_at_sample :
    let t = receive_ack (make_ack 0 3) busy in
    (t.sender ≡ record (reset window) { scheduled = false }) × (t.forwarder.transmitting ≡ false)
ack_finishes_at_sample =
    ack_finishes (make_ack 0 3) busy refl refl (omega arith) window_done (omega arith)

-- A full window of a content that has one byte more.
abbrev first : Server
first = record server {
  sender = record window { data_size = 1215001; window_length = 900; packet_id = 900 };
}

first_done : WindowDone first.sender
first_done = record {
  sent = refl;
  nonempty = omega arith;
  full = omega arith;
  offset = omega arith;
  data_size = omega arith;
  window_id = omega arith;
}

ack_sends_next_at_sample :
    receive_ack (make_ack 0 900) first
    ≡ window_sent (at_window 1215000 1 (calculate_window_size 1) first)
ack_sends_next_at_sample =
    ack_sends_next (make_ack 0 900) first refl refl (omega arith) first_done (omega arith)

-- The server that answered the request.
abbrev asked_again : Server
asked_again = receive request server

update_stops_timeout_at_sample :
    receive request asked_again
    ≡ record asked_again { sender = record asked_again.sender { scheduled = false; errors = 0 } }
unfolding Server.handle_packets
update_stops_timeout_at_sample = update_stops_timeout request 3 asked_again refl refl refl refl

-- The server that got it twice.
abbrev stalled : Server
stalled = receive request asked_again

Stalled-forever_example : Stalled stalled (Server.handle_packets (request ∷ request ∷ []) stalled)
unfolding Server.handle_packets
Stalled-forever_example = Stalled-forever (request ∷ request ∷ []) stalled (tt, (tt, tt)) refl refl

abbrev transmitting : Server
transmitting = record server { forwarder = record server.forwarder { transmitting = true } }

update_deferred_at_sample :
    let t = forwarder_update transmitting in
    (t.tx ≡ [])
    × (t.forwarder.rom ≡ server.forwarder.rom)
    × (t.forwarder.current_hash ≡ server.forwarder.current_hash)
    × ((finish_transmission t).forwarder.rom ≡ server.forwarder.pending)
update_deferred_at_sample = update_deferred transmitting refl

abbrev long_named : Server
long_named = record server { forwarder = record server.forwarder { modulename = replicate 64 97 } }

long_name_ignored_at_sample :
    receive (make_packet (replicate 64 97) 0 (update 3)) long_named ≡ long_named
long_name_ignored_at_sample =
    long_name_ignored (replicate 64 97) 0 (update 3) long_named refl (omega arith)

abbrev begun : Server
begun = record server { sender = record window { data_size = 3; window_length = 1; packet_id = 0 } }

loaded : Loaded content begun.forwarder
unfolding Server.handle_packets
loaded = record { valid = refl; size = refl; bytes = refl }

partial : InWindow 3 begun.sender
unfolding calculate_window_size
partial = record {
  small = omega arith;
  data_size = refl;
  start = refl;
  inside = omega arith;
  len = refl;
  next_in = omega arith;
}

send_packets-WindowSent_example : WindowSent content 0 begun (send_packets 1 begun)
send_packets-WindowSent_example =
    send_packets-WindowSent content 0 1 begun loaded partial (omega arith) (omega arith) tt
