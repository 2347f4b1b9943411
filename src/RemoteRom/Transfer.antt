-- ===== src/RemoteRom/Transfer.antt =====
-- What a transmission of a content is: the packets that belong to it. A full window holds 900
-- packets of 1350 bytes, that is 1215000 bytes.
use genode_world.Prelude.{
  ℕ, ◌+◌, ◌-◌, ◌*◌, ◌≤◌, ◌<◌, ◌≡◌, List, [], ◌∷◌, arith, min, length, take, drop,
}
use genode_world.RemoteRom.Packet.{
  DataPacket, Packet, Body, signal, update, data_packet, ack_packet, unknown,
}
use genode_world.RemoteRom.Window.{calculate_window_size}

-- Where the data of a packet starts.
abbrev pub packet_start : ℕ → ℕ → ℕ
packet_start window_id packet_id = window_id * 1215000 + packet_id * 1350

-- The packets that one window of the content has.
abbrev pub window_packets : ℕ → ℕ → ℕ
window_packets n window_id = calculate_window_size (n - window_id * 1215000)

-- A data packet of the transmission of `content`.
pub record Genuine (content : List ℕ) (p : DataPacket) : Type 0 where
  pub window_in : p.window_id * 1215000 < length content
  pub packet_in : p.packet_id < p.window_length
  pub window_len : p.window_length ≡ window_packets (length content) p.window_id
  pub size : p.payload_size ≡ min 1350 (length content - packet_start p.window_id p.packet_id)
  pub bytes : p.content ≡ take p.payload_size (drop (packet_start p.window_id p.packet_id) content)

-- The data packets among these belong to the transmission, and to its first `k + 1` windows.
abbrev pub BodyOk : List ℕ → ℕ → Body → Type 0
BodyOk content k (data_packet d) = Genuine content d × (d.window_id ≤ k)
BodyOk content k (signal n) = Unit
BodyOk content k (update n) = Unit
BodyOk content k (ack_packet a) = Unit
BodyOk content k (unknown n) = Unit

abbrev pub AllOk : List ℕ → ℕ → List Packet → Type 0
AllOk content k [] = Unit
AllOk content k (p ∷ ps) = BodyOk content k p.body × AllOk content k ps

BodyOk-mono :
    (content : List ℕ) {k l : ℕ} (b : Body) → k ≤ l → BodyOk content k b → BodyOk content l b
BodyOk-mono content (data_packet d) h (g, le) = (g, omega arith)
BodyOk-mono content (signal n) h v = tt
BodyOk-mono content (update n) h v = tt
BodyOk-mono content (ack_packet a) h v = tt
BodyOk-mono content (unknown n) h v = tt

pub AllOk-mono :
    (content : List ℕ) {k l : ℕ} (ps : List Packet)
    → k ≤ l
    → AllOk content k ps
    → AllOk content l ps
AllOk-mono content [] h v = tt
AllOk-mono content (p ∷ ps) h (b, v) = (BodyOk-mono content p.body h b, AllOk-mono content ps h v)
