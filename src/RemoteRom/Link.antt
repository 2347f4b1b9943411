-- ===== src/RemoteRom/Link.antt =====
-- A server and a client, joined by a network that loses, repeats, delays and reorders packets:
-- whatever one side has ever submitted may reach the other at any time, any number of times.
pub mod Inv
pub mod Transfer
use genode_world.Prelude.{
  ℕ, ◌+◌, ◌*◌, ◌/◌, ◌≤◌, ◌<◌, ◌≡◌, ◌⊎◌, inl, inr, true, false, List, [], ◌∷◌, arith,
}
use genode_world.RemoteRom.Packet.{
  DataPacket, Packet, Body, signal, update, data_packet, ack_packet, unknown,
}
use genode_world.RemoteRom.Server
use genode_world.RemoteRom.Server.{Server}
use genode_world.RemoteRom.Client
use genode_world.RemoteRom.Client.{Client, Receiver}

pub record Link : Type 0 where
  pub server : Server
  pub client : Client

-- The packet is among those submitted.
abbrev pub Submitted : Packet → List Packet → Type 0
Submitted p [] = ⊥
Submitted p (q ∷ qs) = (p ≡ q) ⊎ Submitted p qs

-- What the network must not do: announce the content a second time while it is transferred, or
-- deliver the last packet of a window after a packet of the next window, if that one is shorter.
abbrev pub Orderly : Body → Receiver → Type 0
Orderly (data_packet d) r = d.window_id + 1 ≡ r.window_id → r.window_length ≡ 900
Orderly (signal n) r = ⊥
Orderly (update n) r = Unit
Orderly (ack_packet a) r = Unit
Orderly (unknown n) r = Unit

pub data Step : Link → Link → Type 0 where
  to_client :
      (l : Link) (p : Packet)
      → Submitted p l.server.tx
      → Orderly p.body l.client.receiver
      → Step l (record l { client = Client.receive p l.client })
  to_server :
      (l : Link) (p : Packet)
      → Submitted p l.client.tx
      → Step l (record l { server = Server.receive p l.server })
  server_timeout :
      (l : Link)
      → l.server.sender.scheduled ≡ true
      → Step l (record l { server = Server.timeout_handler l.server })
  client_timeout :
      (l : Link)
      → l.client.receiver.scheduled ≡ true
      → Step l (record l { client = Client.timeout_handler l.client })

pub data Reach (l : Link) : Link → Type 0 where
  here : Reach l l
  next : {m n : Link} → Reach l m → Step m n → Reach l n
