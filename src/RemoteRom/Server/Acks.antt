-- ===== src/RemoteRom/Server/Acks.antt =====
-- What the acknowledgement of a whole window does: the next window is sent, or the transmission
-- ends.
use genode_world.Prelude.{
  ℕ, ◌+◌, ◌-◌, ◌*◌, ◌≤◌, ◌<◌, ◌^◌, ◌≡◌, refl, ap, ◌∙◌, true, false, arith, if-true, if-false, ltb,
  ◌==◌, add_size, sub_size,
}
use genode_world.RemoteRom.Packet.{AckPacket}
use genode_world.RemoteRom.Window.{calculate_window_size, window_size_pos, window_size_le}
use genode_world.RemoteRom.Server.{
  Server, Sender, receive_ack, transmit, continue_transmission, send_window, finish_transmission,
  reset, stop_timeout, advance, transmission_complete, is_transmitting,
}
use genode_world.RemoteRom.Server.Resend.{packets_sent, send_window_lem, finish_transmission_rest}

-- A sender that has sent its window, within sizes that do not wrap.
pub record WindowDone (c : Sender) : Type 0 where
  pub sent : c.packet_id ≡ c.window_length
  pub nonempty : 0 < c.window_length
  pub full : c.window_length ≤ 900
  pub offset : c.offset ≤ c.data_size
  pub data_size : c.data_size < 2 ^ 32
  pub window_id : c.window_id < 2 ^ 32

-- The sender at the start of a window.
abbrev pub at_window : ℕ → ℕ → ℕ → Server → Server
at_window offset window_id window_length s = record s {
  sender = record s.sender {
    offset = offset;
    window_id = window_id;
    window_length = window_length;
    packet_id = 0;
    scheduled = false;
    errors = 0;
  };
}

-- The server once this whole window is sent.
abbrev pub window_sent : Server → Server
window_sent s = record s {
  sender = record s.sender { packet_id = s.sender.window_length; scheduled = true };
  tx = packets_sent s.sender.window_length 0 s s.tx;
}

send_window-whole :
    (s : Server)
    → s.sender.packet_id ≡ 0
    → 0 < s.sender.window_length
    → s.sender.window_length < 2 ^ 64
    → send_window (record s { sender = record s.sender { packet_id = 0 } })
      ≡ window_sent (record s { sender = record s.sender { packet_id = 0 } })
send_window-whole s start nonempty small =
    let whole : s.sender.window_length - 0 ≡ s.sender.window_length = omega arith in
    let from : Server = record s { sender = record s.sender { packet_id = 0 } } in
    send_window_lem from nonempty small
    ∙ ap (λ n. record (window_sent from) { tx = packets_sent n 0 from s.tx }) whole

module _ (a : AckPacket) (s : Server) (frontend : s.sender.registered ≡ true)
    (same : a.window_id ≡ s.sender.window_id) (all : s.sender.window_length ≤ a.ack_until)
    (w : WindowDone s.sender) where
  continues : receive_ack a s ≡ continue_transmission (stop_timeout s)
  unfolding receive_ack transmit
  continues =
      let here : (a.window_id == s.sender.window_id) ≡ true = ground arith in
      let up_to_end : ltb a.ack_until s.sender.packet_id ≡ false = ground (arith, w.sent) in
      let complete : (s.sender.packet_id == s.sender.window_length) ≡ true =
        ground (arith, w.sent) in
      if-true _ _ _ here
      ∙ ap (transmit false) (if-false _ _ _ up_to_end)
      ∙ if-true _ _ _ frontend
      ∙ if-true _ _ _ complete

  -- The acknowledgement of the whole last window ends the transmission of a server that has a
  -- frontend and has sent the window: the sender is idle, no timeout is set, and the frontend
  -- takes new content over again.
  pub ack_finishes :
      s.sender.data_size ≤ s.sender.offset + s.sender.window_length * 1350
      → let t = receive_ack a s in
        (t.sender ≡ record (reset s.sender) { scheduled = false })
        × (t.forwarder.transmitting ≡ false)
  unfolding continue_transmission
  ack_finishes end =
      let quiet : Server = stop_timeout s in
      let last : Server = record quiet { sender = advance quiet.sender } in
      let complete : transmission_complete last.sender ≡ true =
        ground (arith, w.full, w.offset, w.data_size) in
      let busy : is_transmitting last.sender ≡ true = ground (arith, w.sent, w.nonempty) in
      let rest = finish_transmission_rest last in
      let finished : Server = finish_transmission last in
      let busy_still : is_transmitting finished.sender ≡ true = ap is_transmitting rest.0 ∙ busy in
      let result : receive_ack a s ≡ record finished { sender = reset finished.sender } =
        continues ∙ if-true _ _ _ complete ∙ if-true _ _ _ busy_still in
      (
        ap (λ t. t.sender) result ∙ ap reset rest.0,
        ap (λ t. t.forwarder.transmitting) result ∙ rest.1,
      )

  -- The acknowledgement of a whole window that is not the last one makes the server, if it has a
  -- frontend and has sent the window, send each packet of the next window once and in order and
  -- set the timeout; nothing else changes.
  pub ack_sends_next :
      s.sender.offset + s.sender.window_length * 1350 < s.sender.data_size
      → let offset = s.sender.offset + s.sender.window_length * 1350 in
        let length = calculate_window_size (s.sender.data_size - offset) in
        receive_ack a s ≡ window_sent (at_window offset (s.sender.window_id + 1) length s)
  unfolding continue_transmission
  ack_sends_next more =
      let quiet : Server = stop_timeout s in
      let last : Server = record quiet { sender = advance quiet.sender } in
      let offset : ℕ = s.sender.offset + s.sender.window_length * 1350 in
      let length : ℕ = calculate_window_size (s.sender.data_size - offset) in
      let at : last.sender.offset ≡ offset = omega (arith, w.full, w.offset, w.data_size) in
      let rest : sub_size s.sender.data_size offset ≡ s.sender.data_size - offset =
        omega (arith, w.data_size) in
      let id : add_size s.sender.window_id 1 ≡ s.sender.window_id + 1 =
        omega (arith, w.window_id) in
      let on : transmission_complete last.sender ≡ false = ground arith in
      continues
      ∙ if-false _ _ _ on
      ∙ ap
          (λ o. send_window (
            at_window o (add_size s.sender.window_id 1)
              (calculate_window_size (sub_size s.sender.data_size o)) s))
          at
      ∙ ap
          (λ i.
            send_window
              (at_window offset i (calculate_window_size (sub_size s.sender.data_size offset)) s))
          id
      ∙ ap
          (λ r. send_window (at_window offset (s.sender.window_id + 1) (calculate_window_size r) s))
          rest
      ∙ send_window-whole (at_window offset (s.sender.window_id + 1) length s) refl
          (window_size_pos (s.sender.data_size - offset) (omega arith))
          (omega (arith, window_size_le (s.sender.data_size - offset)))
