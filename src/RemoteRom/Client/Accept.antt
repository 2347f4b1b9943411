-- ===== src/RemoteRom/Client/Accept.antt =====
-- `Content_receiver::accept_packet` as a whole, on the packets of a transmission.
use genode_world.Prelude.{
  ℕ, ◌+◌, ◌≤◌, ◌≡◌, refl, inl, inr, Bool, true, false, List, some, arith, length, Bool-cases, ◌==◌,
  leb, list_eq, ◌∙◌, ◌&&◌,
}
use genode_world.RemoteRom.Packet.{
  DataPacket, Packet, Body, signal, update, data_packet, ack_packet, unknown,
}
use genode_world.RemoteRom.Transfer.{Genuine}
use genode_world.RemoteRom.Client.{
  Side, Receiver, Client, is_complete, started, with_receiver, window_complete, accept_in_window,
  accept_packet, accept_started, receive, receive_body, receiver_name, receiver_hash,
  timeout_handler, send_ack, submit,
}
use genode_world.RemoteRom.Client.Frame.{
  Frame, Frame-flags, Timely, Entered, started-Entered, position, write_offset-position,
}
use genode_world.RemoteRom.Client.Memory.{Filled}
use genode_world.RemoteRom.Client.Holds.{
  Holds, other_packet-Holds, other_window-Holds, next_packet-Holds,
}
use genode_world.RemoteRom.Client.Progress.{
  Progress, frontier, other_packet-Progress, other_window-Progress, next_packet-Progress,
}

-- One step of the client: the invariant, and the progress.
pub record Steps (content : List ℕ) (sd : Side) (c d : Client) : Type 0 where
  pub holds : Holds content sd d
  pub progress : Progress sd c d

and_false : (b : Bool) → (b && false) ≡ false
and_false true = refl
and_false false = refl

pub complete_keeps :
    (p : DataPacket) (c : Client) → is_complete c.receiver ≡ true → accept_packet p c ≡ c
unfolding accept_packet
complete_keeps p c done = rw done

accept_started_lem :
    (p : DataPacket) (r : Receiver) (c : Client)
    → leb r.buf_size r.offset ≡ false
    → accept_started p r c ≡ accept_in_window p (with_receiver c r)
unfolding accept_started
accept_started_lem p r c e = rw (e, and_false (window_complete c.receiver))

module _ (content : List ℕ) (p : DataPacket) (r q : Receiver) (f : Frame (length content) r)
    (e : Entered content p r q) where
  pub Entered-open : is_complete r ≡ false → is_complete q ≡ false
  Entered-open more =
      ground (
        arith,
        e.same,
        e.frame.size,
        f.size,
        write_offset-position f,
        write_offset-position e.frame,
      )

  not_past : leb q.buf_size q.offset ≡ false
  not_past = ground (arith, e.frame.size, e.frame.start, e.frame.inside)

  frontier-same : frontier q ≡ frontier r
  frontier-same = rw e.same

module _ (content : List ℕ) (p : DataPacket) (sd : Side) (g : Genuine content p) where
  module _ (c : Client) (f : Frame (length content) c.receiver)
      (ptr : c.receiver.write_ptr ≡ some sd)
      (v : Filled content sd (position c.receiver) c.rom_module)
      (open_ : is_complete c.receiver ≡ false) (bg : c.rom_module.bg ≡ sd)
      (partial : c.receiver.next_packet_id ≡ c.receiver.window_length → ⊥)
      (behind : p.window_id ≤ c.receiver.window_id)
      (late : p.window_id + 1 ≡ c.receiver.window_id → c.receiver.window_length ≡ 900) where
    in_window-Steps : Steps content sd c (accept_in_window p c)
    unfolding accept_in_window
    in_window-Steps = elim (Bool-cases (p.window_id == c.receiver.window_id)) [
      | inl here ↦ elim (Bool-cases (p.packet_id == c.receiver.next_packet_id)) [
        | inl next ↦
            rw (here, next)
              (record {
                holds =
                    next_packet-Holds content p sd c g f ptr v open_ bg partial (ground arith)
                      (ground arith);
                progress =
                    next_packet-Progress content p sd c g f ptr v open_ bg partial (ground arith)
                      (ground arith);
              })
        | inr jump ↦
            rw (here, jump)
              (record {
                holds = other_packet-Holds content p sd c g f ptr v open_ bg partial;
                progress = other_packet-Progress content p sd c g f ptr v open_ bg partial;
              })
      ]
      | inr away ↦ rw away (record {
        holds = other_window-Holds content p sd c g f ptr v open_ bg partial (ground arith) late;
        progress =
            other_window-Progress content p sd c g f ptr v open_ bg partial (ground arith) late;
      })
    ]

  module _ (c : Client) (h : Holds content sd c) (t : Timely p c.receiver) where
    abbrev pub ready : Receiver
    ready = record c.receiver { scheduled = false }

    complete_ignores : is_complete c.receiver ≡ true → Steps content sd c (accept_packet p c)
    unfolding accept_packet
    complete_ignores done = rw done (record { holds = h; progress = ground arith })

    pub entered : is_complete c.receiver ≡ false → Entered content p ready (started p ready)
    entered more =
        started-Entered (Frame-flags c.receiver.omit_nack false h.frame) g
          (record { not_ahead = t.not_ahead; not_late = t.not_late }) more

    unguarded :
        is_complete c.receiver ≡ false → accept_packet p c ≡ accept_started p (started p ready) c
    unfolding accept_packet
    unguarded more = simp (more, h.frame.frontend)

    -- A window that is not the last one is never started beyond the end of the content.
    pub proceed :
        is_complete c.receiver ≡ false
        → accept_packet p c ≡ accept_in_window p (with_receiver c (started p ready))
    proceed more =
        let e =
          not_past content p ready (started p ready)
            (Frame-flags c.receiver.omit_nack false h.frame) (entered more) in
        unguarded more ∙ accept_started_lem p (started p ready) c e

    pub open_side : is_complete c.receiver ≡ false → c.rom_module.bg ≡ sd
    open_side more = ground (arith, h.side)

    from_started :
        is_complete c.receiver ≡ false
        → Steps content sd (with_receiver c (started p ready)) (accept_packet p c)
    from_started more = rw (proceed more) (
        in_window-Steps (with_receiver c (started p ready)) e.frame (e.ptr ∙ h.ptr)
          (rw e.same h.filled)
          (Entered-open content p ready _ (Frame-flags c.receiver.omit_nack false h.frame) e more)
          (open_side more) e.partial e.behind e.not_late)
      where
        e : Entered content p ready (started p ready)
        e = entered more

    -- A packet of the content that comes in time (`Timely`) keeps the client's invariant, takes
    -- back none of the windows that have arrived, and leaves the dataspace that the clients see;
    -- at most one packet is sent, an acknowledgement of the new position.
    pub accept_packet-Steps : Steps content sd c (accept_packet p c)
    accept_packet-Steps = elim (Bool-cases (is_complete c.receiver)) [
      | inl done ↦ complete_ignores done
      | inr more ↦ record {
        holds = (from_started more).holds;
        progress = record {
          grows =
              rw
                (frontier-same content p ready _ (Frame-flags c.receiver.omit_nack false h.frame)
                  (entered more))
                at (from_started more).progress.grows;
          sends = (from_started more).progress.sends;
          name = (from_started more).progress.name;
          foreground = (from_started more).progress.foreground;
        };
      }
    ]

-- What the client asks of a packet.
abbrev pub Welcome : List ℕ → Body → Receiver → Type 0
Welcome content (data_packet d) r = Genuine content d × Timely d r
Welcome content (signal n) r = ⊥
Welcome content (update n) r = Unit
Welcome content (ack_packet a) r = Unit
Welcome content (unknown n) r = Unit

module _ (content : List ℕ) (sd : Side) (c : Client) (h : Holds content sd c) where
  unchanged : Steps content sd c c
  unchanged = record { holds = h; progress = ground arith }

  receive_body-Steps :
      (b : Body) (p : Packet)
      → Welcome content b c.receiver
      → Steps content sd c (receive_body b p c)
  unfolding receive_body
  receive_body-Steps (data_packet d) p w =
      elim (Bool-cases (list_eq p.module_name (receiver_name c))) [
        | inr e ↦ rw e unchanged
        | inl e ↦ elim (Bool-cases (p.content_hash == receiver_hash c)) [
          | inr e' ↦ rw (e, e') unchanged
          | inl e' ↦ elim (Bool-cases (leb d.payload_size (length d.content))) [
            | inr e'' ↦ rw (e, e', e'') unchanged
            | inl e'' ↦ rw (e, e', e'') (accept_packet-Steps content d sd w.0 c h w.1)
          ]
        ]
      ]
  receive_body-Steps (signal n) p w = elim w [ ]
  receive_body-Steps (update n) p w = unchanged
  receive_body-Steps (ack_packet a) p w = unchanged
  receive_body-Steps (unknown n) p w = unchanged

  pub receive-Steps :
      (p : Packet) → Welcome content p.body c.receiver → Steps content sd c (receive p c)
  unfolding receive
  receive-Steps p w = receive_body-Steps p.body p w

  pub timeout-Steps : Steps content sd c (timeout_handler c)
  unfolding timeout_handler send_ack submit
  timeout-Steps = record {
    holds = record {
      frame = Frame-flags c.receiver.omit_nack false h.frame;
      ptr = h.ptr;
      filled = h.filled;
      side = h.side;
    };
    progress = ground arith;
  }
