-- ===== src/RemoteRom/Link/Transfer.antt =====
-- The transfer of a content over the link: what the clients of the ROM service see.
use genode_world.Prelude.{
  ℕ, ◌*◌, ◌/◌, ◌^◌, ◌≤◌, ◌<◌, ◌≡◌, sym, ap, ◌∙◌, true, false, List, arith, length, take, min,
  take-length_le,
}
use genode_world.RemoteRom.Cksum.{cksum}
use genode_world.RemoteRom.Server.{Server}
use genode_world.RemoteRom.Server.Serves.{Serves}
use genode_world.RemoteRom.Client.{
  Client, Side, other, bytes_at, fg_bytes, is_complete, start_new_content,
}
use genode_world.RemoteRom.Client.Frame.{position, write_offset-position}
use genode_world.RemoteRom.Client.Holds.{Holds}
use genode_world.RemoteRom.Client.InOrder.{
  InOrder, accept_packets, accept_packets_complete, accept_packets-Holds,
}
use genode_world.RemoteRom.Packet.{DataPacket}
use genode_world.RemoteRom.Client.Start.{start-Holds, start_kept, start_position, start_tx}
use genode_world.RemoteRom.Client.Progress.{frontier}
use genode_world.RemoteRom.Link.{Link, Reach}
use genode_world.RemoteRom.Link.Inv.{Inv, AllSeen, Reach-Inv}

-- A link whose client was told of the content that the server is ready to serve.
abbrev pub announced : List ℕ → Server → Client → Link
announced content s c = record {
  server = s;
  client = start_new_content (cksum content) (length content) c;
}

pub record Ready (content : List ℕ) (s : Server) (c : Client) : Type 0 where
  pub serves : Serves content 0 s
  pub frontend : c.receiver.registered ≡ true
  pub acks : AllSeen 0 c.tx

-- A client that is complete has committed the content.
complete_content :
    (content : List ℕ) (sd : Side) (c : Client)
    → Holds content sd c
    → is_complete c.receiver ≡ true
    → take (length content) (fg_bytes c.rom_module) ≡ content
complete_content content sd c h done =
    ap (λ s. take (length content) (bytes_at s c.rom_module)) swapped
    ∙ ap (λ k. take k (bytes_at sd c.rom_module)) (sym reached)
    ∙ h.filled.prefix
    ∙ take-length_le _ content (omega (arith, reached))
  where
    swapped : other c.rom_module.bg ≡ sd
    swapped = ground (arith, h.side)

    reached : min (position c.receiver) (length content) ≡ length content
    reached = ground (arith, write_offset-position h.frame, h.frame.size)

module _ (content : List ℕ) (s : Server) (c : Client) (r : Ready content s c) where
  frontier_start : frontier (announced content s c).client.receiver ≡ 0
  frontier_start =
      ap (λ k. k / 1215000) (start_position content c r.frontend r.serves.small r.serves.nonempty)

  pub announced-Inv : Inv content (fg_bytes c.rom_module) c.rom_module.bg (announced content s c)
  announced-Inv = record {
    client = start-Holds content c r.frontend r.serves.small r.serves.nonempty;
    server = rw frontier_start r.serves;
    acks =
        rw (frontier_start, start_tx content c r.frontend r.serves.small r.serves.nonempty) r.acks;
    kept = start_kept content c r.frontend r.serves.small r.serves.nonempty;
  }

-- Let a client with a frontend have been told of a content of 1 to 2^32 - 1 bytes that a server
-- serves (`Serves`, at its first window), with no acknowledgement of a later window among the
-- packets it sent before. After any sequence of deliveries, losses, repetitions and timeouts that
-- is `Orderly`, the dataspace that a client which is complete shows its own clients begins with
-- this content, in its full length. What the dataspace has behind it is not said: it does not
-- shrink.
pub transfer_correct :
    (content : List ℕ) (s : Server) (c : Client) (m : Link)
    → Ready content s c
    → Reach (announced content s c) m
    → is_complete m.client.receiver ≡ true
    → take (length content) (fg_bytes m.client.rom_module) ≡ content
transfer_correct content s c m r reach done =
    complete_content content c.rom_module.bg m.client
      (Reach-Inv (announced-Inv content s c r) reach).client done

-- Let a client with a frontend have been told of a content of 1 to 2^32 - 1 bytes that a server
-- serves (`Serves`, at its first window), with no acknowledgement of a later window among the
-- packets it sent before. After any sequence of deliveries, losses, repetitions and timeouts that
-- is `Orderly`, as long as the client is not complete, its own clients see the bytes that they saw
-- before the announcement.
pub transfer_atomic :
    (content : List ℕ) (s : Server) (c : Client) (m : Link)
    → Ready content s c
    → Reach (announced content s c) m
    → is_complete m.client.receiver ≡ false
    → fg_bytes m.client.rom_module ≡ fg_bytes c.rom_module
transfer_atomic content s c m r reach more =
    let v = Reach-Inv (announced-Inv content s c r) reach in
    let same : m.client.rom_module.bg ≡ c.rom_module.bg = ground (arith, v.client.side) in
    ap (λ b. bytes_at (other b) m.client.rom_module) same ∙ v.kept

-- A client that has a frontend, is told of a content of 1 to 2^32 - 1 bytes, and is then given the
-- packets of the content in order up to its end, is complete and shows the content.
pub InOrder-delivers :
    (content : List ℕ) (c : Client) (ps : List DataPacket)
    → c.receiver.registered ≡ true
    → length content < 2 ^ 32
    → 0 < length content
    → InOrder content 0 ps
    → length content ≤ 1350 * length ps
    → let d = accept_packets ps (start_new_content (cksum content) (length content) c) in
      (is_complete d.receiver ≡ true) × (take (length content) (fg_bytes d.rom_module) ≡ content)
InOrder-delivers content c ps frontend small nonempty o long =
    let h = start-Holds content c frontend small nonempty in
    let at = sym (start_position content c frontend small nonempty) in
    let complete = accept_packets_complete _ o h at (omega (arith, long)) in
    (complete, complete_content content c.rom_module.bg _ (accept_packets-Holds _ o h at) complete)
