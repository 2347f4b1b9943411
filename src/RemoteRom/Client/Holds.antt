-- ===== src/RemoteRom/Client/Holds.antt =====
-- The invariant of the client during a transfer, and that `accept_packet` keeps it.
use genode_world.Prelude.{
  ℕ, ◌+◌, ◌-◌, ◌*◌, ◌≤◌, ◌<◌, ◌≡◌, refl, sym, ◌∙◌, ap, ◌⊎◌, true, false, List, some, min, arith,
  length, take, take-take_le, take-length_le,
}
use genode_world.RemoteRom.Packet.{DataPacket}
use genode_world.RemoteRom.Transfer.{Genuine}
use genode_world.RemoteRom.Window.{window_size_le, window_size_full}
use genode_world.RemoteRom.Cksum.{cksum}
use genode_world.RemoteRom.Client.{
  Side, other, RomModule, bytes_at, Client, send_ack, submit, with_receiver, is_complete,
  commit_new_content, commit_bg, accept_other_window, accept_other_packet, accept_next_packet,
  count_packet, ack_window, conclude, left, right,
}
use genode_world.RemoteRom.Client.Frame.{Frame, Frame-flags, position, write_offset-position}
use genode_world.RemoteRom.Client.Memory.{
  Filled, stored, write-eq_stored, stored-Filled, bg-store_at,
}

-- Until the content is complete the receiver fills the background dataspace; from then on the
-- dataspace is the one that the clients see.
pub record Holds (content : List ℕ) (sd : Side) (c : Client) : Type 0 where
  pub frame : Frame (length content) c.receiver
  pub ptr : c.receiver.write_ptr ≡ some sd
  pub filled : Filled content sd (position c.receiver) c.rom_module
  pub side :
      ((is_complete c.receiver ≡ false) × (c.rom_module.bg ≡ sd))
      ⊎ ((is_complete c.receiver ≡ true) × (other c.rom_module.bg ≡ sd))

Filled-mono :
    (content : List ℕ) (sd : Side) (k l : ℕ) (m : RomModule)
    → l ≤ k
    → Filled content sd k m
    → Filled content sd l m
Filled-mono content sd k l m h v = record {
  room = v.room;
  prefix =
      sym (take-take_le small large (bytes_at sd m) (omega arith))
      ∙ ap (take small) v.prefix
      ∙ take-take_le small large content (omega arith);
  hash = v.hash;
  size = v.size;
}
  where
    small : ℕ
    small = min l (length content)

    large : ℕ
    large = min k (length content)

-- What `conclude` needs: as `Holds`, with nothing committed yet.
record Pending (content : List ℕ) (sd : Side) (c : Client) : Type 0 where
  frame : Frame (length content) c.receiver
  ptr : c.receiver.write_ptr ≡ some sd
  filled : Filled content sd (position c.receiver) c.rom_module
  bg : c.rom_module.bg ≡ sd

ack_window-Pending :
    (content : List ℕ) (sd : Side) (c : Client)
    → Pending content sd c
    → Pending content sd (ack_window c)
unfolding ack_window send_ack submit
ack_window-Pending content sd c v = ground arith

other-other : (sd : Side) → other (other sd) ≡ sd
other-other left = refl
other-other right = refl

-- The checksum of the complete content is the expected one, so the dataspaces are swapped.
module _ (content : List ℕ) (sd : Side) (c : Client) (v : Pending content sd c)
    (done : is_complete c.receiver ≡ true) where
  whole : take (length content) (bytes_at sd c.rom_module) ≡ content
  whole =
      ap (λ k. take k (bytes_at sd c.rom_module)) (sym reached)
      ∙ v.filled.prefix
      ∙ take-length_le _ content (omega (arith, reached))
    where
      reached : min (position c.receiver) (length content) ≡ length content
      reached = ground (arith, write_offset-position v.frame)

  sum :
      c.rom_module.bg_hash
      ≡ cksum (take c.rom_module.bg_size (bytes_at c.rom_module.bg c.rom_module))
  sum =
      v.filled.hash
      ∙ ap cksum (
          sym (
            ap (λ k. take k (bytes_at c.rom_module.bg c.rom_module)) v.filled.size
            ∙ ap (λ s. take (length content) (bytes_at s c.rom_module)) v.bg
            ∙ whole))

  committed : commit_new_content c ≡ record c {
    rom_module = record c.rom_module { bg = other c.rom_module.bg };
    notified = c.notified + 1;
  }
  unfolding commit_new_content commit_bg
  committed = ground (arith, sum)

conclude-Holds :
    (content : List ℕ) (sd : Side) (c : Client)
    → Pending content sd c
    → Holds content sd (conclude c)
unfolding conclude
conclude-Holds content sd c v =
    ground (arith, committed content sd c v, other-other c.rom_module.bg)

module _ (content : List ℕ) (p : DataPacket) (sd : Side) (c : Client) (g : Genuine content p)
    (f : Frame (length content) c.receiver) (ptr : c.receiver.write_ptr ≡ some sd)
    (v : Filled content sd (position c.receiver) c.rom_module)
    (open_ : is_complete c.receiver ≡ false) (bg : c.rom_module.bg ≡ sd)
    (partial : c.receiver.next_packet_id ≡ c.receiver.window_length → ⊥) where
  pub other_packet-Holds : Holds content sd (accept_other_packet c)
  unfolding accept_other_packet send_ack submit
  other_packet-Holds = ground arith

  pub other_window-Holds :
      p.window_id < c.receiver.window_id
      → (p.window_id + 1 ≡ c.receiver.window_id → c.receiver.window_length ≡ 900)
      → Holds content sd (accept_other_window p c)
  unfolding accept_other_window send_ack submit
  other_window-Holds behind late = ground (
    arith,
    g.window_len,
    window_size_full (length content - p.window_id * 1215000),
    write_offset-position f,
    Filled-mono content sd (position c.receiver) (p.window_id * 1215000 + p.window_length * 1350)
        c.rom_module,
  )

  abbrev pub counted : Client
  counted = record c {
    receiver = record c.receiver {
      omit_nack = false;
      next_packet_id = c.receiver.next_packet_id + 1;
    };
    rom_module = stored content p sd c;
  }

  pub count_packet_lem :
      p.window_id ≡ c.receiver.window_id
      → p.packet_id ≡ c.receiver.next_packet_id
      → count_packet p c ≡ counted
  unfolding count_packet
  count_packet_lem here next =
      let seen = with_receiver c (record c.receiver { omit_nack = false }) in
      rw
        (write-eq_stored content p sd seen (Frame-flags false c.receiver.scheduled f) g ptr here
          next)
        (ground (arith, window_size_le (length content - c.receiver.window_id * 1215000)))

  counted-Pending :
      p.window_id ≡ c.receiver.window_id
      → p.packet_id ≡ c.receiver.next_packet_id
      → Pending content sd counted
  counted-Pending here next = record {
    frame = ground (arith, g.packet_in, g.window_len);
    ptr = ptr;
    filled = ground (arith, stored-Filled content p sd c f g ptr here next v);
    bg = bg-store_at sd _ c.rom_module ∙ bg;
  }

  pub next_packet-Holds :
      p.window_id ≡ c.receiver.window_id
      → p.packet_id ≡ c.receiver.next_packet_id
      → Holds content sd (accept_next_packet p c)
  unfolding accept_next_packet
  next_packet-Holds here next =
      rw (count_packet_lem here next)
        (conclude-Holds content sd _ (ack_window-Pending content sd _ (counted-Pending here next)))
