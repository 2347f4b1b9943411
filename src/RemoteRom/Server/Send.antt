-- ===== src/RemoteRom/Server/Send.antt =====
-- `send_packet` and its loop: the packets that a window of the content is sent as.
use genode_world.Prelude.{
  ℕ, zero, suc, ◌+◌, ◌-◌, ◌*◌, ◌≤◌, ◌<◌, ◌^◌, ◌≡◌, refl, sym, ap, ◌∙◌, Bool, true, List, append-nil,
  min, arith, length, take, drop, length-take, length-drop, take-drop-take, Bool-cases, ltb,
  sub_size, u16, add_size, inl, inr,
}
use native.Mathlib.Nat.{sub_self}
use genode_world.RemoteRom.Packet.{DataPacket, make_data}
use genode_world.RemoteRom.Transfer.{Genuine, packet_start, window_packets, AllOk}
use genode_world.RemoteRom.Window.{window_size_tight, window_size_le}
use genode_world.RemoteRom.Server.{
  Server, Sender, Forwarder, content_size, transfer_content, payload_size, data_offset, send_packet,
  send_packets, send_next, submit,
}

-- The frontend delivers this content.
pub record Loaded (content : List ℕ) (f : Forwarder) : Type 0 where
  pub valid : f.rom.valid ≡ true
  pub size : content_size f ≡ length content
  pub bytes : take (length content) f.rom.bytes ≡ content

pub Loaded-flags :
    {content : List ℕ} {f : Forwarder} (t u : Bool)
    → Loaded content f
    → Loaded content (record f { transmitting = t; update_received = u })
unfolding content_size
Loaded-flags t u l = record { valid = l.valid; size = l.size; bytes = l.bytes }

-- The sender stands within the window `window_id` of a content of `n` bytes.
pub record InWindow (n : ℕ) (c : Sender) : Type 0 where
  pub small : n < 2 ^ 32
  pub data_size : c.data_size ≡ n
  pub start : c.offset ≡ c.window_id * 1215000
  pub inside : c.window_id * 1215000 < n
  pub len : c.window_length ≡ window_packets n c.window_id
  pub next_in : c.packet_id < c.window_length

-- The packet that `send_packet` submits.
abbrev pub packet_of : Server → DataPacket
packet_of s =
    let bytes = transfer_content s.forwarder (payload_size s.sender) (data_offset s.sender) in
    make_data s.sender.window_id s.sender.window_length s.sender.packet_id (length bytes) bytes

module _ (content : List ℕ) (f : Forwarder) (l : Loaded content f) (size offset : ℕ)
    (h : offset + size ≤ length content) (small : length content < 2 ^ 32) where
  fits : min size (sub_size (content_size f) offset) ≡ size
  fits = omega (arith, l.size)

  -- The packet is filled from the content, with no padding.
  transferred : transfer_content f size offset ≡ take size (drop offset content)
  unfolding transfer_content
  transferred =
      simp (l.valid, fits, sub_self, append-nil)
        (sym (take-drop-take size offset (length content) f.rom.bytes h)
          ∙ ap (λ b. take size (drop offset b)) l.bytes)

module _ (content : List ℕ) (s : Server) (l : Loaded content s.forwarder)
    (w : InWindow (length content) s.sender) where
  at : ℕ
  at = packet_start s.sender.window_id s.sender.packet_id

  size : ℕ
  size = min 1350 (length content - at)

  at-lt : at < length content
  unfolding at
  at-lt = omega (
    arith,
    w.len,
    w.next_in,
    w.inside,
    window_size_tight (length content - s.sender.window_id * 1215000) s.sender.packet_id,
  )

  data_offset-at : data_offset s.sender ≡ at
  unfolding at
  data_offset-at = omega (arith, w.start, w.small, at-lt)

  payload_size-size : payload_size s.sender ≡ size
  unfolding size
  payload_size-size = omega (arith, data_offset-at, at-lt, w.data_size, w.small)

  bytes :
      transfer_content s.forwarder (payload_size s.sender) (data_offset s.sender)
      ≡ take size (drop at content)
  unfolding size
  bytes =
      rw (payload_size-size, data_offset-at)
        (transferred content s.forwarder l size at (omega (arith, at-lt)) w.small)

  length-bytes :
      length (transfer_content s.forwarder (payload_size s.sender) (data_offset s.sender)) ≡ size
  unfolding size
  length-bytes =
      rw bytes (omega (arith, length-take size (drop at content), length-drop at content))

  -- No field is cut.
  fields :
      (u16 s.sender.window_id ≡ s.sender.window_id)
      × (u16 s.sender.packet_id ≡ s.sender.packet_id)
      × (u16 s.sender.window_length ≡ s.sender.window_length)
  fields = omega (
    arith,
    w.small,
    w.inside,
    w.len,
    w.next_in,
    window_size_le (length content - s.sender.window_id * 1215000),
  )

  size_field :
      u16 (length (transfer_content s.forwarder (payload_size s.sender) (data_offset s.sender)))
      ≡ size
  unfolding size
  size_field = omega (arith, length-bytes)

  -- What `send_packet` submits within a window is a packet of the transmission.
  pub packet_of-Genuine : Genuine content (packet_of s)
  unfolding at size
  packet_of-Genuine = record {
    window_in = omega (arith, fields, w.inside);
    packet_in = omega (arith, fields, w.next_in);
    window_len = rw (fields.0, fields.2) w.len;
    size = rw (fields.0, fields.1) size_field;
    bytes = rw (size_field, fields.0, fields.1) bytes;
  }

abbrev at_packet : Sender → ℕ → Sender
at_packet c n = record c { packet_id = n }

abbrev end_of_window : Sender → Sender
end_of_window c = at_packet c c.window_length

-- What the loop of `transmit` does to the server: the rest of the window is sent.
pub record WindowSent (content : List ℕ) (k : ℕ) (s t : Server) : Type 0 where
  pub forwarder : t.forwarder ≡ s.forwarder
  pub sender : t.sender ≡ record s.sender { packet_id = s.sender.window_length }
  pub tx : AllOk content k t.tx

module _ (content : List ℕ) (k : ℕ) (s : Server) (l : Loaded content s.forwarder)
    (w : InWindow (length content) s.sender) (le : s.sender.window_id ≤ k)
    (ok : AllOk content k s.tx) where
  next : add_size s.sender.packet_id 1 ≡ s.sender.packet_id + 1
  next =
      omega
        (arith, w.next_in, w.len, window_size_le (length content - s.sender.window_id * 1215000))

  send_next-AllOk : AllOk content k (send_next s).tx
  unfolding send_next send_packet submit
  send_next-AllOk = ((packet_of-Genuine content s l w, omega (arith, fields content s l w, le)), ok)

  send_next-InWindow :
      s.sender.packet_id + 1 < s.sender.window_length
      → InWindow (length content) (send_next s).sender
  unfolding send_next send_packet submit
  send_next-InWindow more = record {
    small = w.small;
    data_size = w.data_size;
    start = w.start;
    inside = w.inside;
    len = w.len;
    next_in = rw next more;
  }

  send_next_rest :
      ((send_next s).forwarder ≡ s.forwarder)
      × ((send_next s).sender ≡ record s.sender { packet_id = s.sender.packet_id + 1 })
  unfolding send_next send_packet submit
  send_next_rest = (refl, rw next)

-- The loop sends the rest of the window, if it is given enough rounds.
pub send_packets-WindowSent :
    (content : List ℕ) (k fuel : ℕ) (s : Server)
    → Loaded content s.forwarder
    → InWindow (length content) s.sender
    → s.sender.window_id ≤ k
    → s.sender.window_length ≤ s.sender.packet_id + fuel
    → AllOk content k s.tx
    → WindowSent content k s (send_packets fuel s)
unfolding send_packets
send_packets-WindowSent content k zero s l w le enough ok = absurd (omega (arith, w.next_in))
send_packets-WindowSent content k (suc fuel) s l w le enough ok =
    let rest = send_next_rest content k s l w le ok in
    let sent = send_next-AllOk content k s l w le ok in
    elim (Bool-cases (ltb (add_size s.sender.packet_id 1) s.sender.window_length)) [
      | inl more ↦
          let within =
            send_next-InWindow content k s l w le ok (ground (arith, next content k s l w le ok)) in
          let tail : WindowSent content k (send_next s) (send_packets fuel (send_next s)) =
            send_packets-WindowSent content k fuel (send_next s) (rw rest.0 l) within (rw rest.1 le)
              (rw rest.1 (omega arith)) sent in
          rw (more, send_packets)
            (record {
              forwarder = tail.forwarder ∙ rest.0;
              sender = tail.sender ∙ ap end_of_window rest.1;
              tx = tail.tx;
            })
      | inr last ↦
          rw (last, send_packets)
            (record {
              forwarder = rest.0;
              sender =
                  rest.1
                  ∙ ap (at_packet s.sender) (ground (arith, w.next_in, next content k s l w le ok));
              tx = sent;
            })
    ]
