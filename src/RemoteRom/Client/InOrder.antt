-- ===== src/RemoteRom/Client/InOrder.antt =====
-- Packets that arrive in order, none of them lost, complete the content.
use genode_world.Prelude.{
  ℕ, ◌+◌, ◌-◌, ◌*◌, ◌≤◌, ◌≡◌, refl, ap, ◌∙◌, inl, inr, true, false, List, [], ◌∷◌, some, arith,
  length, Bool-cases,
}
use genode_world.RemoteRom.Packet.{DataPacket}
use genode_world.RemoteRom.Transfer.{Genuine, packet_start}
use genode_world.RemoteRom.Window.{window_size_le}
use genode_world.RemoteRom.Client.{
  Side, Receiver, Client, is_complete, started, with_receiver, accept_in_window, accept_next_packet,
  accept_packet, conclude, ack_window, send_ack, submit, commit_new_content, commit_bg,
}
use genode_world.RemoteRom.Client.Frame.{
  Frame, Frame-flags, Timely, Entered, position, write_offset-position,
}
use genode_world.RemoteRom.Client.Memory.{Filled}
use genode_world.RemoteRom.Client.Holds.{Holds, count_packet_lem}
use genode_world.RemoteRom.Client.Accept.{
  accept_packet-Steps, complete_keeps, ready, entered, proceed, Entered-open, open_side,
}

conclude_receiver : (c : Client) → position (conclude c).receiver ≡ position c.receiver
unfolding conclude commit_new_content commit_bg
conclude_receiver c = ground arith

ack_window_receiver : (c : Client) → (ack_window c).receiver ≡ c.receiver
unfolding ack_window send_ack submit
ack_window_receiver c = ground arith

-- The packet that starts where the receiver stands is the next one of the window.
decoded :
    (content : List ℕ) (p : DataPacket) (r q : Receiver)
    → Genuine content p
    → Entered content p r q
    → packet_start p.window_id p.packet_id ≡ position r
    → (p.window_id ≡ q.window_id) × (p.packet_id ≡ q.next_packet_id)
decoded content p r q g e at = ground (
  arith,
  e.same,
  e.partial,
  e.frame.len,
  e.frame.next_in,
  g.packet_in,
  g.window_len,
  window_size_le (length content - p.window_id * 1215000),
  window_size_le (length content - q.window_id * 1215000),
)

module _ (content : List ℕ) (p : DataPacket) (sd : Side) (d : Client) (g : Genuine content p)
    (f : Frame (length content) d.receiver) (ptr : d.receiver.write_ptr ≡ some sd)
    (v : Filled content sd (position d.receiver) d.rom_module)
    (open_ : is_complete d.receiver ≡ false) (bg : d.rom_module.bg ≡ sd)
    (partial : d.receiver.next_packet_id ≡ d.receiver.window_length → ⊥)
    (here : p.window_id ≡ d.receiver.window_id)
    (next : p.packet_id ≡ d.receiver.next_packet_id) where
  in_window_next : accept_in_window p d ≡ accept_next_packet p d
  unfolding accept_in_window
  in_window_next = ground (arith, here, next)

  in_window_advances : position (accept_in_window p d).receiver ≡ position d.receiver + 1350
  unfolding accept_next_packet
  in_window_advances =
      ap (λ c. position c.receiver)
        (in_window_next
          ∙ ap (λ c. conclude (ack_window c))
              (count_packet_lem content p sd d g f ptr v open_ bg partial here next))
      ∙ conclude_receiver _
      ∙ ap position (ack_window_receiver _)
      ∙ omega arith

module _ (content : List ℕ) (p : DataPacket) (sd : Side) (g : Genuine content p) (c : Client)
    (h : Holds content sd c) (at : packet_start p.window_id p.packet_id ≡ position c.receiver) where
  timely : Timely p c.receiver
  timely = record {
    not_ahead = omega arith;
    not_late = λ e. absurd (
        omega (
          arith,
          g.packet_in,
          g.window_len,
          window_size_le (length content - p.window_id * 1215000),
        ));
  }

  next_advances :
      is_complete c.receiver ≡ false
      → position (accept_packet p c).receiver ≡ position c.receiver + 1350
  next_advances more =
      let r = ready content p sd g c h timely in
      let e = entered content p sd g c h timely more in
      let q = started p r in
      let at_next = decoded content p r q g e at in
      ap (λ d. position d.receiver) (proceed content p sd g c h timely more)
      ∙ in_window_advances content p sd (with_receiver c q) g e.frame (e.ptr ∙ h.ptr)
          (rw e.same h.filled)
          (Entered-open content p r q (Frame-flags c.receiver.omit_nack false h.frame) e more)
          (open_side content p sd g c h timely more) e.partial at_next.0 at_next.1
      ∙ ap (λ k. k + 1350) e.same

-- The packets of the content from the position `at` on, in order.
pub data InOrder (content : List ℕ) : ℕ → List DataPacket → Type 0 where
  done : {at : ℕ} → InOrder content at []
  more :
      {at next : ℕ} {p : DataPacket} {ps : List DataPacket}
      → Genuine content p
      → packet_start p.window_id p.packet_id ≡ at
      → next ≡ at + 1350
      → InOrder content next ps
      → InOrder content at (p ∷ ps)

pub accept_packets : List DataPacket → Client → Client
accept_packets [] c = c
accept_packets (p ∷ ps) c = accept_packets ps (accept_packet p c)

stays_complete :
    (ps : List DataPacket) (c : Client) → is_complete c.receiver ≡ true → accept_packets ps c ≡ c
unfolding accept_packets
stays_complete [] c e = refl
stays_complete (p ∷ ps) c e = rw (complete_keeps p c e) (stays_complete ps c e)

-- From any state that satisfies the client's invariant, the packets of the content in order, from
-- the client's position to the end of the content, make the client complete.
pub accept_packets_complete :
    {content : List ℕ} {sd : Side} {at : ℕ} {ps : List DataPacket} (c : Client)
    → InOrder content at ps
    → Holds content sd c
    → at ≡ position c.receiver
    → length content ≤ at + 1350 * length ps
    → is_complete (accept_packets ps c).receiver ≡ true
unfolding accept_packets
accept_packets_complete c done h e long =
    ground (arith, write_offset-position h.frame, h.frame.size)
accept_packets_complete {content} {sd} c (more {p = p} {ps = ps} g s n o) h e long =
    elim (Bool-cases (is_complete c.receiver)) [
      | inl over ↦ rw (stays_complete (p ∷ ps) c over) over
      | inr open_ ↦
          accept_packets_complete (accept_packet p c) o
            (accept_packet-Steps content p sd g c h (timely content p sd g c h (s ∙ e))).holds
            (omega (arith, n, e, next_advances content p sd g c h (s ∙ e) open_)) (omega (arith, n))
    ]

-- Until the packets run out or the client is complete, the invariant holds.
pub accept_packets-Holds :
    {content : List ℕ} {sd : Side} {at : ℕ} {ps : List DataPacket} (c : Client)
    → InOrder content at ps
    → Holds content sd c
    → at ≡ position c.receiver
    → Holds content sd (accept_packets ps c)
unfolding accept_packets
accept_packets-Holds c done h e = h
accept_packets-Holds {content} {sd} c (more {p = p} {ps = ps} g s n o) h e =
    elim (Bool-cases (is_complete c.receiver)) [
      | inl over ↦ rw (stays_complete (p ∷ ps) c over) h
      | inr open_ ↦
          accept_packets-Holds (accept_packet p c) o
            (accept_packet-Steps content p sd g c h (timely content p sd g c h (s ∙ e))).holds
            (omega (arith, n, e, next_advances content p sd g c h (s ∙ e) open_))
    ]
