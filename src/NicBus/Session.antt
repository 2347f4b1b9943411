-- ===== src/NicBus/Session.antt =====
-- The sessions of the bus and the packets they exchange: `Session_component` of
-- src/server/nic_bus/session_component.h.
pub mod Deliver
pub mod Addressed
use genode_world.Prelude.{
  ℕ, ◌%◌, ◌==◌, ◌||◌, not, Bool, List, [], ◌∷◌, Option, none, some, get_elem?, ltb, if◌then◌else◌,
}
use genode_world.NicBus.Bus.{Mac, mac_eq, Element, Elements, Found, found, absent, overruns, find}

-- A packet with its Ethernet header; `valid` is what the packet stream says of its descriptor.
pub record Packet : Type 0 where
  pub size : ℕ
  pub valid : Bool
  pub dst : Mac
  pub src : Mac
  pub payload : List ℕ

-- The packets submitted to the client of a session, the newest first, and those of them that the
-- client has acknowledged and that are not released.
pub record Source : Type 0 where
  pub queue : List Packet
  pub acked : ℕ

-- The packet stream of Genode: `ready_to_submit`, and whether `alloc_packet` finds room.
pub record Stream : Type 0 where
  pub ready_to_submit : Source → Bool
  pub room : ℕ → Source → Bool

pub record Bus : Type 0 where
  pub elements : Elements
  pub sources : ℕ → Source

abbrev pub release : Source → Source
release s = record s { acked = 0 }

-- How a step ends: with a result, by an exception that nothing catches, or in a read beyond the
-- array of the bus, with its index.
pub data Run (A : Type 0) : Type 0 where
  done : A → Run A
  uncaught : Run A
  overrun : ℕ → Run A

abbrev pub and_then : {A B : Type 0} → Run A → (A → Run B) → Run B
and_then (done a) f = f a
and_then uncaught f = uncaught
and_then (overrun i) f = overrun i

-- `_send`: a packet is dropped if the queue is congested; a failed allocation is not caught.
unfoldable pub send : Stream → Packet → Source → Run Source
send stream pkt s =
    if stream.ready_to_submit (release s)
    then (if stream.room pkt.size (release s)
        then done (record (release s) { queue = pkt ∷ s.queue })
        else uncaught)
    else done (release s)

abbrev pub put : ℕ → Source → Bus → Bus
put obj s b = record b { sources = λ i. if i == obj then s else b.sources i }

unfoldable pub send_to : Stream → Packet → ℕ → Bus → Run Bus
send_to stream pkt obj b = and_then (send stream pkt (b.sources obj)) (λ s. done (put obj s b))

-- `Bus::apply`
abbrev pub apply_found : Stream → Packet → Bus → Found → Run Bus
apply_found stream pkt b (found obj) = send_to stream pkt obj b
apply_found stream pkt b absent = done b
apply_found stream pkt b (overruns i) = overrun i

unfoldable pub apply : Stream → Packet → Mac → Bus → Run Bus
apply stream pkt mac b = apply_found stream pkt b (find mac b.elements)

-- `Bus::apply_all`, over the rest of the array.
unfoldable pub apply_all : Stream → Packet → Elements → Bus → Run Bus
apply_all stream pkt [] b = done b
apply_all stream pkt (none ∷ es) b = apply_all stream pkt es b
apply_all stream pkt (some e ∷ es) b =
    and_then (send_to stream pkt e.obj b) (apply_all stream pkt es)

-- The low bit of the first byte marks a multicast address.
abbrev pub is_multicast : Mac → Bool
is_multicast mac = mac.addr_0 % 2 == 1

-- `_handle_packet` of the session with the element `e`. A packet that is shorter than an Ethernet
-- header ends in an exception that is not caught.
unfoldable pub handle_packet : Stream → Element → Packet → Bus → Run Bus
handle_packet stream e pkt b =
    if pkt.size == 0 || not pkt.valid
    then done b
    else (if ltb pkt.size 14
        then uncaught
        else (if mac_eq pkt.src e.mac
            then (if is_multicast pkt.dst
                then apply_all stream pkt b.elements b
                else apply stream pkt pkt.dst b)
            else done b))

-- `_handle_packets`, over the packets that are available and can be acknowledged.
unfoldable pub handle_packets : Stream → Element → List Packet → Bus → Run Bus
handle_packets stream e [] b = done b
handle_packets stream e (p ∷ ps) b =
    and_then (handle_packet stream e p b) (handle_packets stream e ps)
