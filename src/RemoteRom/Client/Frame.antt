-- ===== src/RemoteRom/Client/Frame.antt =====
-- The window state of a `Content_receiver` during the transfer of a content of `n` bytes.
use genode_world.Prelude.{
  ℕ, Bool-cases, ltb, ltb→lt, ◌+◌, ◌-◌, ◌*◌, ◌≤◌, ◌<◌, ◌^◌, ◌≡◌, ◌⊎◌, inl, inr, Bool, true, false,
  List, length, arith,
}
use genode_world.RemoteRom.Packet.{DataPacket}
use genode_world.RemoteRom.Window.{
  window_size_covers, window_size_full, window_size_le, window_size_pos,
}
use genode_world.RemoteRom.Transfer.{Genuine, packet_start, window_packets}
use genode_world.RemoteRom.Client.{Receiver, write_offset, window_complete, is_complete, started}

abbrev pub position : Receiver → ℕ
position r = packet_start r.window_id r.next_packet_id

pub record Frame (n : ℕ) (r : Receiver) : Type 0 where
  pub small : n < 2 ^ 32
  pub frontend : r.registered ≡ true
  pub size : r.buf_size ≡ n
  pub start : r.offset ≡ r.window_id * 1215000
  pub inside : r.window_id * 1215000 < n
  pub next_in : r.next_packet_id ≤ window_packets n r.window_id
  pub len :
      ((r.window_length ≡ 0) × (r.next_packet_id ≡ 0) × (r.window_id ≡ 0))
      ⊎ (r.window_length ≡ window_packets n r.window_id)
      ⊎ (r.window_length ≡ 900)

-- No arithmetic of the receiver wraps.
pub write_offset-position : {n : ℕ} {r : Receiver} → Frame n r → write_offset r ≡ position r
write_offset-position {n} {r} f = omega (arith, window_size_le (n - r.window_id * 1215000))

-- The window state does not depend on the two flags.
pub Frame-flags :
    {n : ℕ} {r : Receiver} (b s : Bool)
    → Frame n r
    → Frame n (record r { omit_nack = b; scheduled = s })
Frame-flags b s f = record {
  small = f.small;
  frontend = f.frontend;
  size = f.size;
  start = f.start;
  inside = f.inside;
  next_in = f.next_in;
  len = f.len;
}

-- The sender is at most one window ahead, and its last packet of the previous window does not
-- come late, in a shorter window.
pub record Timely (p : DataPacket) (r : Receiver) : Type 0 where
  pub not_ahead : p.window_id * 1215000 ≤ position r
  pub not_late : p.window_id + 1 ≡ r.window_id → r.window_length ≡ 900

-- The receiver `q` that `started` makes of `r` for the packet `p`.
pub record Entered (content : List ℕ) (p : DataPacket) (r q : Receiver) : Type 0 where
  pub frame : Frame (length content) q
  pub same : position q ≡ position r
  pub ptr : q.write_ptr ≡ r.write_ptr
  pub behind : p.window_id ≤ q.window_id
  pub not_late : p.window_id + 1 ≡ q.window_id → q.window_length ≡ 900
  pub partial : q.next_packet_id ≡ q.window_length → ⊥

module _ {content : List ℕ} {p : DataPacket} {r : Receiver} (f : Frame (length content) r)
    (g : Genuine content p) (t : Timely p r) (open_ : is_complete r ≡ false) where
  -- A window that ends before the content does is full.
  full : window_complete r ≡ true → 0 < r.next_packet_id → r.next_packet_id ≡ 900
  full h pos = ground (
    arith,
    write_offset-position f,
    window_size_covers (length content - r.window_id * 1215000),
    window_size_le (length content - r.window_id * 1215000),
  )

  new_window_len :
      (id : ℕ)
      → p.window_id ≤ id
      → id * 1215000 < length content
      → (p.window_length ≡ window_packets (length content) id) ⊎ (p.window_length ≡ 900)
  new_window_len id le inside =
      ground (arith, g.window_len, window_size_full (length content - p.window_id * 1215000))

  fresh :
      window_complete r ≡ true → r.next_packet_id ≡ 0 → (r.window_length ≡ 0) × (r.window_id ≡ 0)
  fresh h e = ground (arith, window_size_pos (length content - r.window_id * 1215000))

  started_first :
      window_complete r ≡ true → r.next_packet_id ≡ 0 → Entered content p r (started p r)
  started_first h e = rw h (
      ground (
        arith,
        fresh h e,
        new_window_len 0,
        g.packet_in,
        g.window_len,
        window_size_full (length content - p.window_id * 1215000),
      ))

  started_next : window_complete r ≡ true → 0 < r.next_packet_id → Entered content p r (started p r)
  started_next h pos = rw h (
      ground (
        arith,
        full h pos,
        write_offset-position f,
        new_window_len (r.window_id + 1),
        g.packet_in,
        g.window_len,
        window_size_full (length content - p.window_id * 1215000),
      ))

  pub started-Entered : Entered content p r (started p r)
  started-Entered = elim (Bool-cases (window_complete r)) [
    | inl e ↦ elim (Bool-cases (ltb 0 r.next_packet_id)) [
      | inl pos ↦ started_next e (ltb→lt _ _ pos)
      | inr none ↦ started_first e (ground arith)
    ]
    | inr e ↦
        rw e (ground (arith, t.not_late, window_size_le (length content - r.window_id * 1215000)))
  ]
