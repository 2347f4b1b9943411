-- ===== src/RemoteRom/Link/Inv.antt =====
-- The invariant of the two sides together, kept by every step.
use genode_world.Prelude.{ℕ, ◌-◌, ◌*◌, ◌≤◌, ◌≡◌, ◌∙◌, ◌⊎◌, inl, inr, List, [], ◌∷◌, arith, length}
use genode_world.RemoteRom.Packet.{Packet, Body, signal, update, data_packet, ack_packet, unknown}
use genode_world.RemoteRom.Transfer.{BodyOk, AllOk, AllOk-mono}
use genode_world.RemoteRom.Window.{window_size_le}
use genode_world.RemoteRom.Server.{Server}
use genode_world.RemoteRom.Server.Serves.{Serves}
use genode_world.RemoteRom.Server.Receive.{Seen, receive-Serves, timeout-Serves}
use genode_world.RemoteRom.Client
use genode_world.RemoteRom.Client.{Client, Side, other, bytes_at}
use genode_world.RemoteRom.Client.Holds.{Holds}
use genode_world.RemoteRom.Client.Progress.{frontier, ack_of}
use genode_world.RemoteRom.Client.Accept.{Steps, Welcome, receive-Steps, timeout-Steps}
use genode_world.RemoteRom.Link.{
  Link, Submitted, Orderly, Step, to_client, to_server, server_timeout, client_timeout, Reach, here,
  next,
}

-- Every acknowledgement among these speaks of windows that have arrived.
abbrev pub AllSeen : ℕ → List Packet → Type 0
AllSeen k [] = Unit
AllSeen k (p ∷ ps) = Seen k p.body × AllSeen k ps

Seen-mono : {k l : ℕ} (b : Body) → k ≤ l → Seen k b → Seen l b
Seen-mono (ack_packet a) h s = omega arith
Seen-mono (signal n) h s = tt
Seen-mono (update n) h s = tt
Seen-mono (data_packet d) h s = tt
Seen-mono (unknown n) h s = tt

AllSeen-mono : {k l : ℕ} (ps : List Packet) → k ≤ l → AllSeen k ps → AllSeen l ps
AllSeen-mono [] h s = tt
AllSeen-mono (p ∷ ps) h s = (Seen-mono p.body h s.0, AllSeen-mono ps h s.1)

Submitted-Seen :
    (k : ℕ) (p : Packet) (ps : List Packet) → Submitted p ps → AllSeen k ps → Seen k p.body
Submitted-Seen k p [] m s = elim m [ ]
Submitted-Seen k p (q ∷ qs) (inl e) s = rw e s.0
Submitted-Seen k p (q ∷ qs) (inr m) s = Submitted-Seen k p qs m s.1

Submitted-BodyOk :
    (content : List ℕ) (k : ℕ) (p : Packet) (ps : List Packet)
    → Submitted p ps
    → AllOk content k ps
    → BodyOk content k p.body
Submitted-BodyOk content k p [] m s = elim m [ ]
Submitted-BodyOk content k p (q ∷ qs) (inl e) s = rw e s.0
Submitted-BodyOk content k p (q ∷ qs) (inr m) s = Submitted-BodyOk content k p qs m s.1

-- The server is at most at the first window that the client has not got in full.
-- The other dataspace of the client keeps the bytes `old`.
pub record Inv (content old : List ℕ) (sd : Side) (l : Link) : Type 0 where
  pub client : Holds content sd l.client
  pub server : Serves content (frontier l.client.receiver) l.server
  pub acks : AllSeen (frontier l.client.receiver) l.client.tx
  pub kept : bytes_at (other sd) l.client.rom_module ≡ old

Serves-mono :
    {content : List ℕ} {k l : ℕ} (s : Server) → k ≤ l → Serves content k s → Serves content l s
Serves-mono {content} s h v = record {
  small = v.small;
  nonempty = v.nonempty;
  loaded = v.loaded;
  calm = v.calm;
  frontend = v.frontend;
  state = v.state;
  behind = omega (arith, v.behind);
  sent = AllOk-mono content s.tx h v.sent;
}

module _ (content old : List ℕ) (sd : Side) (l : Link) (v : Inv content old sd l) where
  -- What the client acknowledges, it has got.
  ack_of-Seen : (c : Client) → Holds content sd c → Seen (frontier c.receiver) (ack_of c).body
  ack_of-Seen c h = omega (
    arith,
    h.frame.small,
    h.frame.inside,
    h.frame.next_in,
    window_size_le (length content - c.receiver.window_id * 1215000),
  )

  acks_after : (c : Client) → Steps content sd l.client c → AllSeen (frontier c.receiver) c.tx
  acks_after c s = after s.progress.sends
    where
      before : AllSeen (frontier c.receiver) l.client.tx
      before = AllSeen-mono l.client.tx s.progress.grows v.acks

      after :
          (c.tx ≡ l.client.tx) ⊎ (c.tx ≡ ack_of c ∷ l.client.tx)
          → AllSeen (frontier c.receiver) c.tx
      after (inl e) = rw e before
      after (inr e) = rw e (ack_of-Seen c s.holds, before)

  client_step :
      (c : Client) → Steps content sd l.client c → Inv content old sd (record l { client = c })
  client_step c s = record {
    client = s.holds;
    server = Serves-mono l.server s.progress.grows v.server;
    acks = acks_after c s;
    kept = s.progress.foreground ∙ v.kept;
  }

  welcome :
      (b : Body)
      → BodyOk content (frontier l.client.receiver) b
      → Orderly b l.client.receiver
      → Welcome content b l.client.receiver
  welcome (data_packet d) ok o = (ok.0, record { not_ahead = omega (arith, ok.1); not_late = o })
  welcome (signal n) ok o = o
  welcome (update n) ok o = tt
  welcome (ack_packet a) ok o = tt
  welcome (unknown n) ok o = tt

-- Every step of the link keeps the invariant `Inv`: the client holds a prefix of the content, the
-- server sends packets of the content only, and is at most at the first window that the client has
-- not got in full.
pub Step-Inv :
    {content old : List ℕ} {sd : Side} {l m : Link}
    → Step l m
    → Inv content old sd l
    → Inv content old sd m
Step-Inv {content} {old} {sd} (to_client l p m o) v =
    client_step content old sd l v (Client.receive p l.client) (
      receive-Steps content sd l.client v.client p (
        welcome content old sd l v p.body (Submitted-BodyOk content _ p l.server.tx m v.server.sent)
          o))
Step-Inv {content} {old} {sd} (to_server l p m) v = record {
  client = v.client;
  server = receive-Serves content _ l.server v.server p (Submitted-Seen _ p l.client.tx m v.acks);
  acks = v.acks;
  kept = v.kept;
}
Step-Inv {content} {old} {sd} (server_timeout l on) v = record {
  client = v.client;
  server = timeout-Serves content _ l.server v.server on;
  acks = v.acks;
  kept = v.kept;
}
Step-Inv {content} {old} {sd} (client_timeout l on) v =
    client_step content old sd l v (Client.timeout_handler l.client)
      (timeout-Steps content sd l.client v.client)

pub Reach-Inv :
    {content old : List ℕ} {sd : Side} {l m : Link}
    → Inv content old sd l
    → Reach l m
    → Inv content old sd m
Reach-Inv v here = v
Reach-Inv v (next r s) = Step-Inv s (Reach-Inv v r)
