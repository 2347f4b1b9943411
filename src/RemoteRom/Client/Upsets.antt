-- ===== src/RemoteRom/Client/Upsets.antt =====
-- Packets that upset a transfer: the end of a longer window that comes late, and the announcement
-- of another module.
use genode_world.Prelude.{
  ℕ, ◌+◌, ◌*◌, ◌≤◌, ◌<◌, ◌^◌, ◌≡◌, sym, ap, ◌∙◌, true, false, arith, if-true, if-false, list_eq,
  ◌==◌, ◌&&◌, ◌||◌, not, leb, sub_size, mul_size,
}
use genode_world.RemoteRom.Packet.{Packet, DataPacket, signal}
use genode_world.RemoteRom.Client.{
  Client, Receiver, accept_packet, accept_started, accept_in_window, accept_other_window, send_ack,
  submit, with_receiver, is_complete, window_complete, receive, receive_body, request_update,
  start_new_content, base, grow,
}

-- A receiver within a last window of at most 450 packets.
pub record ShortLast (r : Receiver) : Type 0 where
  pub short : r.window_length ≤ 450
  pub behind : r.window_length * 1350 ≤ r.offset
  pub partial : r.next_packet_id < r.window_length
  pub last : r.buf_size ≤ r.offset + r.window_length * 1350
  pub more : r.offset + r.next_packet_id * 1350 < r.buf_size
  pub small : r.buf_size < 2 ^ 32

-- The last packet of a full window that comes a second time.
pub record LateEnd (p : DataPacket) (r : Receiver) : Type 0 where
  pub window : p.window_id + 1 ≡ r.window_id
  pub narrow : p.window_id < 2 ^ 16
  pub id : p.packet_id ≡ 899
  pub length : p.window_length ≡ 900

-- The receiver at the end of the window before.
abbrev rolled_back : DataPacket → Client → Client
rolled_back p c = with_receiver c (record c.receiver {
  offset = sub_size c.receiver.offset (mul_size c.receiver.window_length 1350);
  window_id = p.window_id;
  window_length = p.window_length;
  next_packet_id = p.window_length;
  scheduled = false;
})

module _ (p : DataPacket) (c : Client) (frontend : c.receiver.registered ≡ true)
    (v : ShortLast c.receiver) (late : LateEnd p c.receiver) where
  rolls_back : accept_packet p c ≡ send_ack (rolled_back p c)
  unfolding accept_packet accept_started accept_in_window accept_other_window
  rolls_back =
      let ready : Receiver = record c.receiver { scheduled = false } in
      let open_ : (is_complete c.receiver || not c.receiver.registered) ≡ false =
        ground (arith, v.more, v.small) in
      let within : (ready.next_packet_id == ready.window_length) ≡ false =
        ground (arith, v.partial) in
      let inside : (window_complete c.receiver && leb ready.buf_size ready.offset) ≡ false =
        ground (arith, v.partial) in
      let before : (p.window_id == ready.window_id) ≡ false = ground (arith, late.window) in
      let end : (p.window_id == sub_size ready.window_id 1
            && p.packet_id == sub_size p.window_length 1)
          ≡ true =
        ground (arith, late.window, late.narrow, late.id, late.length) in
      if-false _ _ _ open_
      ∙ ap (λ r. accept_started p r c) (if-false _ _ _ within)
      ∙ if-false _ _ _ inside
      ∙ if-false _ _ _ before
      ∙ if-true _ _ _ end

  complete : is_complete (rolled_back p c).receiver ≡ true
  complete = ground (arith, v.short, v.behind, v.last, v.small, v.more, late.length)

  ignores :
      (q : DataPacket) → accept_packet q (send_ack (rolled_back p c)) ≡ send_ack (rolled_back p c)
  unfolding accept_packet send_ack submit
  ignores q =
      let shut : (is_complete (rolled_back p c).receiver || not c.receiver.registered) ≡ true =
        ap (λ b. b || not c.receiver.registered) complete in
      if-true _ _ _ shut

-- If the last packet of a full window comes again while a receiver with a frontend is within a
-- last window of at most 450 packets, the ROM module stays as it was and any further data packet
-- is ignored.
pub late_packet_stalls :
    (p q : DataPacket) (c : Client)
    → c.receiver.registered ≡ true
    → ShortLast c.receiver
    → LateEnd p c.receiver
    → ((accept_packet p c).rom_module ≡ c.rom_module)
      × (accept_packet q (accept_packet p c) ≡ accept_packet p c)
unfolding send_ack submit
late_packet_stalls p q c frontend v late =
    let e = rolls_back p c frontend v late in
    (ap (λ d. d.rom_module) e, ap (accept_packet q) e ∙ ignores p c frontend v late q ∙ sym e)

-- The announcement of another module than the one of a client with a frontend starts the receiver
-- anew for the announced size and hash, and no request is sent.
pub foreign_signal_discards :
    (p : Packet) (size : ℕ) (c : Client)
    → p.body ≡ signal size
    → c.receiver.registered ≡ true
    → list_eq p.module_name c.remotename ≡ false
    → let d = receive p c in
      (d.receiver.buf_size ≡ size)
      × (d.receiver.offset ≡ 0)
      × (d.receiver.next_packet_id ≡ 0)
      × (d.rom_module.bg_hash ≡ p.content_hash)
      × (d.tx ≡ c.tx)
unfolding receive receive_body request_update start_new_content base grow
foreign_signal_discards p size c body frontend foreign = rw body (ground arith)
