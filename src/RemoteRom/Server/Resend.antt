-- ===== src/RemoteRom/Server/Resend.antt =====
-- What the server sends exactly: the rest of a window, after a negative acknowledgement or a
-- timeout, and what it does at the second timeout.
use genode_world.Prelude.{
  ℕ, zero, suc, ◌+◌, ◌-◌, ◌≤◌, ◌<◌, ◌^◌, ◌≡◌, refl, sym, ap, ◌∙◌, Bool, true, false, List, ◌∷◌,
  arith, if-true, if-false, ltb, ◌==◌, add_size,
}
use genode_world.RemoteRom.Packet.{Packet, AckPacket, data_packet, make_packet}
use genode_world.RemoteRom.Server.{
  Server, Sender, sender_name, sender_hash, go_back, send_next, send_packet, submit, send_packets,
  send_window, transmit, receive_ack, timeout_handler, retry_or_cancel, reset, finish_transmission,
  forwarder_update, send_update,
}
use genode_world.RemoteRom.Server.Send.{packet_of}

-- The packet number `i` of the window.
abbrev pub sent_at : ℕ → Server → Packet
sent_at i s =
    make_packet (sender_name s) (sender_hash s)
      (data_packet (packet_of (record s { sender = go_back i s.sender })))

-- The packets `i`, `i + 1` and so on, put before those submitted so far.
abbrev pub packets_sent : ℕ → ℕ → Server → List Packet → List Packet
packets_sent zero i s sent = sent
packets_sent (suc count) i s sent = packets_sent count (i + 1) s (sent_at i s ∷ sent)

-- The server after `count` packets from the one it stands at.
abbrev pub after_packets : ℕ → Server → Server
after_packets count s = record s {
  sender = go_back (s.sender.packet_id + count) s.sender;
  tx = packets_sent count s.sender.packet_id s s.tx;
}

send_next_lem : (s : Server) → s.sender.packet_id + 1 < 2 ^ 64 → send_next s ≡ after_packets 1 s
unfolding send_next send_packet submit
send_next_lem s small =
    let e : add_size s.sender.packet_id 1 ≡ s.sender.packet_id + 1 = omega arith in
    ap (λ j. record (after_packets 1 s) { sender = go_back j s.sender }) e

-- The server with other counters, which the packets do not depend on.
abbrev pub turned : ℕ → Bool → ℕ → List Packet → Server → Server
turned packet_id on errors tx s = record s {
  sender = record s.sender { packet_id = packet_id; scheduled = on; errors = errors };
  tx = tx;
}

pub packets_sent-turned :
    (packet_id : ℕ) (on : Bool) (errors : ℕ) (tx : List Packet) (count i : ℕ) (s : Server)
    (sent : List Packet)
    → packets_sent count i (turned packet_id on errors tx s) sent ≡ packets_sent count i s sent
packets_sent-turned packet_id on errors tx zero i s sent = refl
packets_sent-turned packet_id on errors tx (suc count) i s sent =
    packets_sent-turned packet_id on errors tx count (i + 1) s (sent_at i s ∷ sent)

after_packets-add :
    (count : ℕ) (s : Server)
    → after_packets (suc count) (after_packets 1 s) ≡ after_packets (suc (suc count)) s
after_packets-add count s =
    let e : s.sender.packet_id + 1 + suc count ≡ s.sender.packet_id + suc (suc count) =
      omega arith in
    ap (λ j. record (after_packets (suc count) (after_packets 1 s)) { sender = go_back j s.sender })
      e
    ∙ ap (λ l. record (after_packets (suc (suc count)) s) { tx = l })
        (packets_sent-turned (s.sender.packet_id + 1) s.sender.scheduled s.sender.errors
          (sent_at s.sender.packet_id s ∷ s.tx) (suc count) (s.sender.packet_id + 1) s
          (sent_at s.sender.packet_id s ∷ s.tx))

send_packets-more :
    (fuel : ℕ) (s : Server)
    → ltb (add_size s.sender.packet_id 1) s.sender.window_length ≡ true
    → send_packets (suc fuel) s ≡ send_packets fuel (send_next s)
unfolding send_packets
send_packets-more fuel s e = rw (e, send_packets) refl

-- The state behind the loop, with the timeout set.
abbrev timed : Server → Server
timed s = record s { sender = record s.sender { scheduled = true } }

loop_lem :
    (fuel count : ℕ) (s : Server)
    → count ≤ fuel
    → s.sender.packet_id + suc count ≡ s.sender.window_length
    → s.sender.window_length < 2 ^ 64
    → send_packets (suc fuel) s ≡ after_packets (suc count) s
unfolding send_packets
loop_lem fuel zero s le last small =
    let e : ltb (add_size s.sender.packet_id 1) s.sender.window_length ≡ false = ground arith in
    rw (e, send_packets) (send_next_lem s (omega arith))
loop_lem zero (suc count) s le last small = absurd (omega arith)
loop_lem (suc fuel) (suc count) s le last small =
    let e : ltb (add_size s.sender.packet_id 1) s.sender.window_length ≡ true = ground arith in
    let step : send_next s ≡ after_packets 1 s = send_next_lem s (omega arith) in
    let tail =
      loop_lem fuel count (after_packets 1 s) (omega arith) (omega arith) small
      ∙ after_packets-add count s in
    send_packets-more (suc fuel) s e ∙ ap (send_packets (suc fuel)) step ∙ tail

-- The rest of the window is sent, each packet once and in order, and the timeout is set.
pub send_window_lem :
    (s : Server)
    → s.sender.packet_id < s.sender.window_length
    → s.sender.window_length < 2 ^ 64
    → let rest = s.sender.window_length - s.sender.packet_id in
      send_window s ≡ record s {
        sender = record s.sender { packet_id = s.sender.window_length; scheduled = true };
        tx = packets_sent rest s.sender.packet_id s s.tx;
      }
unfolding send_window
send_window_lem s more small =
    let rest : ℕ = s.sender.window_length - s.sender.packet_id in
    let sent : ℕ → List Packet = λ n. packets_sent n s.sender.packet_id s s.tx in
    let all : s.sender.packet_id + suc (rest - 1) ≡ s.sender.window_length = omega arith in
    let count : suc (rest - 1) ≡ rest = omega arith in
    ap timed (loop_lem rest (rest - 1) s (omega arith) all small)
    ∙ ap (λ j. timed (record s { sender = go_back j s.sender; tx = sent (suc (rest - 1)) })) all
    ∙ ap (λ n. timed (record s { sender = go_back s.sender.window_length s.sender; tx = sent n }))
        count

-- The packets from `i` on are sent: a call of `transmit` within a window.
resend_from :
    (i : ℕ) (s : Server)
    → s.sender.registered ≡ true
    → i < s.sender.window_length
    → s.sender.window_length < 2 ^ 64
    → transmit false (record s { sender = go_back i s.sender })
      ≡ turned s.sender.window_length true 0 (packets_sent (s.sender.window_length - i) i s s.tx) s
unfolding transmit
resend_from i s frontend more small =
    if-true _ _ _ frontend
    ∙ if-false _ _ _ within
    ∙ send_window_lem (turned i false 0 s.tx s) more small
    ∙ ap (λ l. turned s.sender.window_length true 0 l s)
        (packets_sent-turned i false 0 s.tx (s.sender.window_length - i) i s s.tx)
  where
    within : (i == s.sender.window_length) ≡ false
    within = ground arith

-- An acknowledgement of the current window up to the packet `ack_until`, while the whole window is
-- sent, makes a server with a frontend send this packet and those behind it again, each once and
-- in order; nothing else changes but the timeout, which is set, and the error count.
pub nack_resends :
    (a : AckPacket) (s : Server)
    → s.sender.registered ≡ true
    → a.window_id ≡ s.sender.window_id
    → a.ack_until < s.sender.packet_id
    → s.sender.packet_id ≡ s.sender.window_length
    → s.sender.window_length < 2 ^ 64
    → receive_ack a s ≡ record s {
      sender = record s.sender { scheduled = true; errors = 0 };
      tx = packets_sent (s.sender.window_length - a.ack_until) a.ack_until s s.tx;
    }
unfolding receive_ack
nack_resends a s frontend same back sent small =
    if-true _ _ _ at_window
    ∙ ap (transmit false) (if-true _ _ _ before)
    ∙ resend_from a.ack_until s frontend (omega arith) small
    ∙ ap
        (λ j.
          turned j true 0 (packets_sent (s.sender.window_length - a.ack_until) a.ack_until s s.tx)
            s)
        (sym sent)
  where
    at_window : (a.window_id == s.sender.window_id) ≡ true
    at_window = ground arith

    before : ltb a.ack_until s.sender.packet_id ≡ true
    before = ground arith

abbrev counted : Server → Server
counted t = record t { sender = record t.sender { errors = add_size t.sender.errors 1 } }

abbrev counted_sender : Sender → Sender
counted_sender c = record c { errors = add_size c.errors 1 }

-- A timeout that follows none makes a server with a frontend send its whole window again, if this
-- has at least one packet, each packet once and in order, set the timeout and count the error;
-- nothing else changes.
pub timeout_resends :
    (s : Server)
    → s.sender.registered ≡ true
    → s.sender.errors ≡ 0
    → 0 < s.sender.window_length
    → s.sender.window_length < 2 ^ 64
    → timeout_handler s ≡ record s {
      sender = record s.sender { packet_id = s.sender.window_length; scheduled = true; errors = 1 };
      tx = packets_sent s.sender.window_length 0 s s.tx;
    }
unfolding timeout_handler retry_or_cancel
timeout_resends s frontend fine nonempty small =
    let quiet : Server = record s { sender = record s.sender { scheduled = false } } in
    let none_yet : (s.sender.errors == 0) ≡ true = ground arith in
    let whole : s.sender.window_length - 0 ≡ s.sender.window_length = omega arith in
    ap counted (
      if-true _ _ _ none_yet
      ∙ resend_from 0 quiet frontend nonempty small
      ∙ ap (λ n. turned s.sender.window_length true 0 (packets_sent n 0 quiet s.tx) s) whole
      ∙ ap (λ l. turned s.sender.window_length true 0 l s)
          (packets_sent-turned s.sender.packet_id false s.sender.errors s.tx s.sender.window_length
            0 s s.tx))

pub finish_transmission_rest :
    (s : Server)
    → ((finish_transmission s).sender ≡ s.sender)
      × ((finish_transmission s).forwarder.transmitting ≡ false)
unfolding finish_transmission forwarder_update send_update submit
finish_transmission_rest s = ground arith

-- A timeout after another one, with no acknowledgement in between, gives the transmission up: the
-- sender is idle, no timeout is set, and the frontend takes new content over again.
pub timeout_cancels :
    (s : Server)
    → 0 < s.sender.errors
    → let t = timeout_handler s in
      (t.sender ≡ record (reset s.sender) { scheduled = false; errors = 1 })
      × (t.forwarder.transmitting ≡ false)
unfolding timeout_handler retry_or_cancel
timeout_cancels s failed =
    let fired : Server = record s { sender = record s.sender { scheduled = false } } in
    let again : (s.sender.errors == 0) ≡ false = ground arith in
    let given_up : Server = record fired { sender = reset fired.sender } in
    let rest = finish_transmission_rest given_up in
    let same : retry_or_cancel fired ≡ finish_transmission given_up = if-false _ _ _ again in
    (
      ap (λ t. (counted t).sender) same ∙ ap counted_sender rest.0,
      ap (λ t. t.forwarder.transmitting) same ∙ rest.1,
    )
