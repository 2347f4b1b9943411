-- ===== src/RemoteRom/Client/Memory.antt =====
-- The memory that a `Content_receiver` fills, and the step of `accept_packet` that stores a packet.
use genode_world.Prelude.{
  ℕ, ◌*◌, sub_size, ◌+◌, ◌-◌, ◌≤◌, ◌<◌, ◌≡◌, refl, sym, ap, ◌∙◌, List, ◌++◌, some, min, arith,
  length, take, drop, overwrite, length-take, length-drop, length-overwrite, take-overwrite,
  take-add, take-take_le,
}
use genode_world.RemoteRom.Packet.{DataPacket}
use genode_world.RemoteRom.Transfer.{Genuine, packet_start}
use genode_world.RemoteRom.Window.{window_size_tight}
use genode_world.RemoteRom.Cksum.{cksum}
use genode_world.RemoteRom.Client.{
  Side, left, right, other, RomModule, bytes_at, store_at, Client, write, write_offset,
}
use genode_world.RemoteRom.Client.Frame.{Frame, position, write_offset-position}

-- The dataspace `sd` has room for the content, and its first `k` bytes are in place.
pub record Filled (content : List ℕ) (sd : Side) (k : ℕ) (m : RomModule) : Type 0 where
  pub room : length content ≤ length (bytes_at sd m)
  pub prefix : take (min k (length content)) (bytes_at sd m) ≡ take (min k (length content)) content
  pub hash : m.bg_hash ≡ cksum content
  pub size : m.bg_size ≡ length content

extend :
    (content mem : List ℕ) (pos size : ℕ)
    → pos < length content
    → length content ≤ length mem
    → take (min pos (length content)) mem ≡ take (min pos (length content)) content
    → size ≡ min 1350 (length content - pos)
    → take (min (pos + 1350) (length content)) (overwrite mem pos (take size (drop pos content)))
      ≡ take (min (pos + 1350) (length content)) content
extend content mem pos size inside room same e =
    take-overwrite mem pos (take size (drop pos content)) (omega (arith, e, long)) (omega arith)
    ∙ ap (λ t. t ++ take size (drop pos content)) before
    ∙ sym (take-add pos size content (omega (arith, e)))
  where
    long : length (take size (drop pos content)) ≡ size
    long = omega (arith, length-take size (drop pos content), length-drop pos content, e)

    at : min pos (length content) ≡ pos
    at = omega arith

    before : take pos mem ≡ take pos content
    before = ap (λ k. take k mem) (sym at) ∙ same ∙ ap (λ k. take k content) at

pub bytes_at-store_at : (sd : Side) (b : List ℕ) (m : RomModule) → bytes_at sd (store_at sd b m) ≡ b
bytes_at-store_at left b m = refl
bytes_at-store_at right b m = refl

pub bytes_at-store_at-other :
    (sd : Side) (b : List ℕ) (m : RomModule)
    → bytes_at (other sd) (store_at sd b m) ≡ bytes_at (other sd) m
bytes_at-store_at-other left b m = refl
bytes_at-store_at-other right b m = refl

pub store_at_rest :
    (sd : Side) (b : List ℕ) (m : RomModule)
    → ((store_at sd b m).bg ≡ m.bg)
      × ((store_at sd b m).bg_hash ≡ m.bg_hash)
      × ((store_at sd b m).bg_size ≡ m.bg_size)
store_at_rest left b m = (refl, refl, refl)
store_at_rest right b m = (refl, refl, refl)

-- The module once the packet at the receiver's position is stored.
abbrev pub stored : List ℕ → DataPacket → Side → Client → RomModule
stored content p sd c =
    store_at sd
      (overwrite (bytes_at sd c.rom_module) (position c.receiver)
        (take p.payload_size (drop (position c.receiver) content)))
      c.rom_module

pub bg-store_at : (sd : Side) (b : List ℕ) (m : RomModule) → (store_at sd b m).bg ≡ m.bg
bg-store_at sd b m = (store_at_rest sd b m).0

module _ (content : List ℕ) (p : DataPacket) (sd : Side) (c : Client)
    (f : Frame (length content) c.receiver) (g : Genuine content p)
    (ptr : c.receiver.write_ptr ≡ some sd) (here : p.window_id ≡ c.receiver.window_id)
    (next : p.packet_id ≡ c.receiver.next_packet_id) where
  pub inside : position c.receiver < length content
  inside = omega (
    arith,
    g.window_len,
    g.packet_in,
    g.window_in,
    window_size_tight (length content - p.window_id * 1215000) p.packet_id,
  )

  start : packet_start p.window_id p.packet_id ≡ position c.receiver
  start = omega arith

  payload : take p.payload_size p.content ≡ take p.payload_size (drop (position c.receiver) content)
  payload =
      ap (take p.payload_size) (g.bytes ∙ ap (λ k. take p.payload_size (drop k content)) start)
      ∙ take-take_le p.payload_size p.payload_size _ (omega arith)

  len : min p.payload_size (sub_size c.receiver.buf_size (write_offset c.receiver)) ≡ p.payload_size
  len = omega (arith, inside, g.size, start, write_offset-position f)

  pub write-eq_stored : write p c ≡ record c { rom_module = stored content p sd c }
  unfolding write
  write-eq_stored = ground (arith, ptr, payload, len, inside, write_offset-position f)

  pub stored-Filled :
      Filled content sd (position c.receiver) c.rom_module
      → Filled content sd (position c.receiver + 1350) (stored content p sd c)
  stored-Filled m = record {
    room = rw (bytes_at-store_at, length-overwrite) m.room;
    prefix = rw bytes_at-store_at (
        extend content _ (position c.receiver) p.payload_size inside m.room m.prefix
          (omega (arith, g.size, start)));
    hash = (store_at_rest sd _ c.rom_module).1 ∙ m.hash;
    size = (store_at_rest sd _ c.rom_module).2 ∙ m.size;
  }
