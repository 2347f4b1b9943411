-- ===== src/RemoteRom/Client/Progress.antt =====
-- How far a `Content_receiver` has come, and the acknowledgements that it sends.
use genode_world.Prelude.{
  ℕ, ◌+◌, ◌-◌, ◌*◌, ◌/◌, ◌≤◌, ◌<◌, ◌≡◌, refl, ◌⊎◌, false, List, ◌∷◌, some, arith, length,
}
use genode_world.RemoteRom.Packet.{DataPacket, Packet, make_packet, make_ack, ack_packet}
use genode_world.RemoteRom.Transfer.{Genuine}
use genode_world.RemoteRom.Window.{window_size_le, window_size_full}
use genode_world.RemoteRom.Client.{
  Side, other, bytes_at, Receiver, Client, send_ack, submit, is_complete, receiver_name,
  receiver_hash, accept_other_window, accept_other_packet, accept_next_packet, ack_window, conclude,
  commit_new_content, commit_bg,
}
use genode_world.RemoteRom.Client.Frame.{Frame, position}
use genode_world.RemoteRom.Client.Memory.{Filled, bytes_at-store_at-other}
use genode_world.RemoteRom.Client.Holds.{count_packet_lem}

-- The number of full windows that have arrived.
abbrev pub frontier : Receiver → ℕ
frontier r = position r / 1215000

-- The acknowledgement of what the client has got.
abbrev pub ack_of : Client → Packet
ack_of c =
    make_packet (receiver_name c) (receiver_hash c)
      (ack_packet (make_ack c.receiver.window_id c.receiver.next_packet_id))

pub record Progress (sd : Side) (c d : Client) : Type 0 where
  pub grows : frontier c.receiver ≤ frontier d.receiver
  pub sends : (d.tx ≡ c.tx) ⊎ (d.tx ≡ ack_of d ∷ c.tx)
  pub name : d.remotename ≡ c.remotename
  pub foreground : bytes_at (other sd) d.rom_module ≡ bytes_at (other sd) c.rom_module

module _ (content : List ℕ) (p : DataPacket) (sd : Side) (c : Client) (g : Genuine content p)
    (f : Frame (length content) c.receiver) (ptr : c.receiver.write_ptr ≡ some sd)
    (v : Filled content sd (position c.receiver) c.rom_module)
    (open_ : is_complete c.receiver ≡ false) (bg : c.rom_module.bg ≡ sd)
    (partial : c.receiver.next_packet_id ≡ c.receiver.window_length → ⊥) where
  pub other_packet-Progress : Progress sd c (accept_other_packet c)
  unfolding accept_other_packet send_ack submit
  other_packet-Progress = ground arith

  pub other_window-Progress :
      p.window_id < c.receiver.window_id
      → (p.window_id + 1 ≡ c.receiver.window_id → c.receiver.window_length ≡ 900)
      → Progress sd c (accept_other_window p c)
  unfolding accept_other_window send_ack submit
  other_window-Progress behind late = ground (
    arith,
    g.window_len,
    window_size_full (length content - p.window_id * 1215000),
    window_size_le (length content - c.receiver.window_id * 1215000),
  )

conclude-Progress : (sd : Side) (b c : Client) → Progress sd b c → Progress sd b (conclude c)
unfolding conclude commit_new_content commit_bg
conclude-Progress sd b c v = ground (arith, v.grows, v.sends, v.name, v.foreground)

ack_window-Progress :
    (sd : Side) (b c : Client)
    → frontier b.receiver ≤ frontier c.receiver
    → c.tx ≡ b.tx
    → c.remotename ≡ b.remotename
    → bytes_at (other sd) c.rom_module ≡ bytes_at (other sd) b.rom_module
    → Progress sd b (ack_window c)
unfolding ack_window send_ack submit
ack_window-Progress sd b c grows same name = ground arith

module _ (content : List ℕ) (p : DataPacket) (sd : Side) (c : Client) (g : Genuine content p)
    (f : Frame (length content) c.receiver) (ptr : c.receiver.write_ptr ≡ some sd)
    (v : Filled content sd (position c.receiver) c.rom_module)
    (open_ : is_complete c.receiver ≡ false) (bg : c.rom_module.bg ≡ sd)
    (partial : c.receiver.next_packet_id ≡ c.receiver.window_length → ⊥) where
  pub next_packet-Progress :
      p.window_id ≡ c.receiver.window_id
      → p.packet_id ≡ c.receiver.next_packet_id
      → Progress sd c (accept_next_packet p c)
  unfolding accept_next_packet
  next_packet-Progress here next =
      rw (count_packet_lem content p sd c g f ptr v open_ bg partial here next) (
        conclude-Progress sd c _ (
          ack_window-Progress sd c _ (omega arith) refl refl
            (bytes_at-store_at-other sd _ c.rom_module)))
