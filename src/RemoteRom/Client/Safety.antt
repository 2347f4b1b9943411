-- ===== src/RemoteRom/Client/Safety.antt =====
-- What holds of the client for every packet, also for one that no server sent.
use genode_world.Prelude.{
  ℕ, zero, suc, ◌+◌, ◌^◌, ◌≤◌, ◌<◌, ◌≡◌, refl, ap, ◌∙◌, ◌⊎◌, inl, inr, ◌&&◌, ◌||◌, not, false, List,
  [], ◌∷◌, Option, none, some, min, arith, length, take, drop, overwrite, length-take, Bool-cases,
  leb, ◌==◌, sub_size,
}
use genode_world.RemoteRom.Packet.{DataPacket}
use genode_world.RemoteRom.Cksum.{cksum}
use genode_world.RemoteRom.Client.Memory.{bg-store_at}
use genode_world.RemoteRom.Client.{
  Side, left, right, other, RomModule, bytes_at, fg_bytes, store_at, Receiver, Client, write,
  write_bytes, write_offset, accept_packet, accept_started, accept_in_window, accept_next_packet,
  accept_other_packet, accept_other_window, conclude, ack_window, count_packet, send_ack, submit,
  commit_new_content, commit_bg, with_receiver, window_complete, started, is_complete,
}

-- A write that ends at `k` leaves what is behind it.
pub drop-overwrite :
    (xs : List ℕ) (i : ℕ) (ys : List ℕ) (k : ℕ)
    → i + length ys ≤ k
    → drop k (overwrite xs i ys) ≡ drop k xs
unfolding overwrite
drop-overwrite [] i ys k h = refl
drop-overwrite (x ∷ xs) (suc i) ys zero h = absurd (omega arith)
drop-overwrite (x ∷ xs) (suc i) ys (suc k) h = drop-overwrite xs i ys k (omega arith)
drop-overwrite (x ∷ xs) zero [] k h = refl
drop-overwrite (x ∷ xs) zero (y ∷ ys) zero h = absurd (omega arith)
drop-overwrite (x ∷ xs) zero (y ∷ ys) (suc k) h = drop-overwrite xs zero ys k (omega arith)

-- What is not in the first `k` bytes of either dataspace.
abbrev pub Untouched : ℕ → RomModule → RomModule → Type 0
Untouched k m n =
    (drop k n.left_bytes ≡ drop k m.left_bytes) × (drop k n.right_bytes ≡ drop k m.right_bytes)

store_at-Untouched :
    (sd : Side) (k i : ℕ) (ys : List ℕ) (m : RomModule)
    → i + length ys ≤ k
    → Untouched k m (store_at sd (overwrite (bytes_at sd m) i ys) m)
store_at-Untouched left k i ys m h = (drop-overwrite m.left_bytes i ys k h, refl)
store_at-Untouched right k i ys m h = (refl, drop-overwrite m.right_bytes i ys k h)

write_bytes-Untouched :
    (bytes : List ℕ) (size : ℕ) (ptr : Option Side) (c : Client)
    → c.receiver.buf_size < 2 ^ 64
    → Untouched c.receiver.buf_size c.rom_module (write_bytes bytes size ptr c).rom_module
unfolding write_bytes
write_bytes-Untouched bytes size none c small = (refl, refl)
write_bytes-Untouched bytes size (some sd) c small =
    elim (Bool-cases (leb c.receiver.buf_size (write_offset c.receiver))) [
      | inl e ↦ rw e (refl, refl)
      | inr e ↦
          let room : ℕ = min size (sub_size c.receiver.buf_size (write_offset c.receiver)) in
          rw e (
            store_at-Untouched sd c.receiver.buf_size (write_offset c.receiver) (take room bytes)
              c.rom_module (ground (arith, length-take room bytes)))
    ]

write-Untouched :
    (p : DataPacket) (c : Client)
    → c.receiver.buf_size < 2 ^ 64
    → Untouched c.receiver.buf_size c.rom_module (write p c).rom_module
unfolding write
write-Untouched p c small = elim (Bool-cases (p.packet_id == c.receiver.next_packet_id)) [
  | inl e ↦ rw e (write_bytes-Untouched p.content p.payload_size c.receiver.write_ptr c small)
  | inr e ↦ rw e (refl, refl)
]

-- The two dataspaces hold the same bytes.
abbrev SameBytes : RomModule → RomModule → Type 0
SameBytes m n = (n.left_bytes ≡ m.left_bytes) × (n.right_bytes ≡ m.right_bytes)

conclude-SameBytes : (c : Client) → SameBytes c.rom_module (conclude (ack_window c)).rom_module
unfolding conclude ack_window send_ack submit commit_new_content commit_bg
conclude-SameBytes c = ground arith

next_packet-Untouched :
    (p : DataPacket) (c : Client)
    → c.receiver.buf_size < 2 ^ 64
    → Untouched c.receiver.buf_size c.rom_module (accept_next_packet p c).rom_module
unfolding accept_next_packet count_packet
next_packet-Untouched p c small =
    let seen = with_receiver c (record c.receiver { omit_nack = false }) in
    let counted = count_packet p seen in
    let same = conclude-SameBytes (count_packet p c) in
    let w = write-Untouched p seen small in
    (ap (drop c.receiver.buf_size) same.0 ∙ w.0, ap (drop c.receiver.buf_size) same.1 ∙ w.1)

in_window-Untouched :
    (p : DataPacket) (c : Client)
    → c.receiver.buf_size < 2 ^ 64
    → Untouched c.receiver.buf_size c.rom_module (accept_in_window p c).rom_module
unfolding accept_in_window accept_other_packet accept_other_window send_ack submit
in_window-Untouched p c small = ground (arith, next_packet-Untouched p c small)

started_buf : (p : DataPacket) (r : Receiver) → (started p r).buf_size ≡ r.buf_size
started_buf p r = ground arith

accept_started-Untouched :
    (p : DataPacket) (r : Receiver) (c : Client)
    → r.buf_size < 2 ^ 64
    → Untouched r.buf_size c.rom_module (accept_started p r c).rom_module
unfolding accept_started
accept_started-Untouched p r c small =
    ground (arith, in_window-Untouched p (with_receiver c r) small)

-- Whatever data packet is accepted, no byte beyond the announced size, if that is a 64-bit number,
-- is written in either dataspace.
pub accept_packet_bounded :
    (p : DataPacket) (c : Client)
    → c.receiver.buf_size < 2 ^ 64
    → Untouched c.receiver.buf_size c.rom_module (accept_packet p c).rom_module
unfolding accept_packet
accept_packet_bounded p c small = ground (
  arith,
  started_buf p (record c.receiver { scheduled = false }),
  accept_started-Untouched p (started p (record c.receiver { scheduled = false })) c,
)

-- The dataspaces are exchanged only if the new one has the announced checksum.
abbrev pub CheckedSwap : RomModule → RomModule → Type 0
CheckedSwap m n = (n.bg ≡ m.bg) ⊎ (n.bg_hash ≡ cksum (take n.bg_size (fg_bytes n)))

swapped_fg : (m : RomModule) → fg_bytes (record m { bg = other m.bg }) ≡ bytes_at m.bg m
swapped_fg m = by_side m.bg m
  where
    by_side :
        (s : Side) (n : RomModule)
        → bytes_at (other (other s)) (record n { bg = other s }) ≡ bytes_at s n
    by_side left n = refl
    by_side right n = refl

commit-CheckedSwap : (c : Client) → CheckedSwap c.rom_module (commit_new_content c).rom_module
unfolding commit_new_content commit_bg
commit-CheckedSwap c = elim (Bool-cases (m.bg_hash == cksum (take m.bg_size (bytes_at m.bg m)))) [
  | inr e ↦ rw e (inl refl)
  | inl e ↦ rw e (inr (ground (arith, ap (λ b. cksum (take m.bg_size b)) (swapped_fg m))))
]
  where
    open c use {rom_module as m}

write_bytes_bg :
    (bytes : List ℕ) (size : ℕ) (ptr : Option Side) (c : Client)
    → (write_bytes bytes size ptr c).rom_module.bg ≡ c.rom_module.bg
unfolding write_bytes
write_bytes_bg bytes size none c = refl
write_bytes_bg bytes size (some sd) c = ground (
  arith,
  bg-store_at sd
      (overwrite (bytes_at sd c.rom_module) (write_offset c.receiver)
        (take (min size (sub_size c.receiver.buf_size (write_offset c.receiver))) bytes))
      c.rom_module,
)

count_packet_bg : (p : DataPacket) (c : Client) → (count_packet p c).rom_module.bg ≡ c.rom_module.bg
unfolding count_packet write
count_packet_bg p c = ground (
  arith,
  write_bytes_bg p.content p.payload_size c.receiver.write_ptr
      (with_receiver c (record c.receiver { omit_nack = false })),
)

conclude-CheckedSwap : (c : Client) → CheckedSwap c.rom_module (conclude c).rom_module
unfolding conclude
conclude-CheckedSwap c = elim (Bool-cases (is_complete c.receiver)) [
  | inl e ↦ rw e (commit-CheckedSwap c)
  | inr e ↦ rw e (inl refl)
]

ack_window_bg : (c : Client) → (ack_window c).rom_module.bg ≡ c.rom_module.bg
unfolding ack_window send_ack submit
ack_window_bg c = ground arith

next_packet-CheckedSwap :
    (p : DataPacket) (c : Client) → CheckedSwap c.rom_module (accept_next_packet p c).rom_module
unfolding accept_next_packet
next_packet-CheckedSwap p c = from (conclude-CheckedSwap (ack_window (count_packet p c)))
  where
    from :
        CheckedSwap
          (ack_window (count_packet p c)).rom_module
          (conclude (ack_window (count_packet p c))).rom_module
        → CheckedSwap c.rom_module (conclude (ack_window (count_packet p c))).rom_module
    from (inl e) = inl (e ∙ ack_window_bg (count_packet p c) ∙ count_packet_bg p c)
    from (inr e) = inr e

in_window-CheckedSwap :
    (p : DataPacket) (c : Client) → CheckedSwap c.rom_module (accept_in_window p c).rom_module
unfolding accept_in_window accept_other_packet accept_other_window send_ack submit
in_window-CheckedSwap p c = elim (Bool-cases (p.window_id == c.receiver.window_id)) [
  | inr e ↦ rw e (inl (ground arith))
  | inl e ↦ elim (Bool-cases (p.packet_id == c.receiver.next_packet_id)) [
    | inl f ↦ rw (e, f) (next_packet-CheckedSwap p c)
    | inr f ↦ rw (e, f) (inl (ground arith))
  ]
]

accept_started-CheckedSwap :
    (p : DataPacket) (r : Receiver) (c : Client)
    → CheckedSwap c.rom_module (accept_started p r c).rom_module
unfolding accept_started
accept_started-CheckedSwap p r c =
    elim (Bool-cases (window_complete c.receiver && leb r.buf_size r.offset)) [
      | inl e ↦ rw e (inl refl)
      | inr e ↦ rw e (in_window-CheckedSwap p (with_receiver c r))
    ]

-- Whatever data packet is accepted, the clients of the ROM service are given another dataspace
-- only if its content has the announced checksum.
pub accept_packet_checked :
    (p : DataPacket) (c : Client) → CheckedSwap c.rom_module (accept_packet p c).rom_module
unfolding accept_packet
accept_packet_checked p c =
    elim (Bool-cases (is_complete c.receiver || not c.receiver.registered)) [
      | inl e ↦ rw e (inl refl)
      | inr e ↦
          rw e
            (accept_started-CheckedSwap p (started p (record c.receiver { scheduled = false })) c)
    ]
