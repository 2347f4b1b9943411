-- ===== src/RemoteRom/Server/Updates.antt =====
-- What requests and new ROM content do to a transmission that is under way.
use genode_world.Prelude.{
  ℕ, ◌<◌, ◌≡◌, refl, ap, ◌∙◌, ◌⊎◌, inl, inr, true, false, List, [], ◌∷◌, arith, length, take,
  Bool-cases, if-true, if-false, list_eq, list_eq_sound, length-take,
}
use genode_world.RemoteRom.Packet.{
  Packet, Body, signal, update, data_packet, ack_packet, unknown, make_packet,
}
use genode_world.RemoteRom.Server.{
  is_transmitting, Server, transmit, receive, receive_body, names_content, transmission_complete,
  stop_timeout, handle_packets, forwarder_update, finish_transmission, send_update, submit,
}

-- A request for the content that a server with a frontend is transmitting has one effect: the
-- timeout of the window is discarded, and no error counts any more.
pub update_stops_timeout :
    (p : Packet) (size : ℕ) (s : Server)
    → p.body ≡ update size
    → names_content p s ≡ true
    → s.sender.registered ≡ true
    → transmission_complete s.sender ≡ false
    → receive p s ≡ record s { sender = record s.sender { scheduled = false; errors = 0 } }
unfolding receive receive_body transmit
update_stops_timeout p size s body named frontend more =
    ap (λ b. receive_body b p s) body
    ∙ if-true _ _ _ named
    ∙ if-true _ _ _ frontend
    ∙ if-false _ _ _ more

-- No acknowledgement is among the packets.
abbrev NoAck : Body → Type 0
NoAck (ack_packet a) = ⊥
NoAck (signal n) = Unit
NoAck (update n) = Unit
NoAck (data_packet d) = Unit
NoAck (unknown n) = Unit

abbrev pub NoAcks : List Packet → Type 0
NoAcks [] = Unit
NoAcks (p ∷ ps) = NoAck p.body × NoAcks ps

handle_packets-nil : (s : Server) → handle_packets [] s ≡ s
unfolding handle_packets
handle_packets-nil s = refl

handle_packets-cons :
    (p : Packet) (ps : List Packet) (s : Server)
    → handle_packets (p ∷ ps) s ≡ handle_packets ps (receive p s)
unfolding handle_packets
handle_packets-cons p ps s = refl

-- A server that is within a transmission and does not wait for an acknowledgement.
pub record Stalled (s t : Server) : Type 0 where
  pub within : transmission_complete t.sender ≡ false
  pub untimed : t.sender.scheduled ≡ false
  pub silent : t.tx ≡ s.tx

-- A request changes the timeout and the error count at most.
transmit-true-cases :
    (t : Server)
    → transmission_complete t.sender ≡ false
    → (transmit true t ≡ t) ⊎ (transmit true t ≡ stop_timeout t)
unfolding transmit
transmit-true-cases t more = elim (Bool-cases t.sender.registered) [
  | inl frontend ↦ inr (if-true _ _ _ frontend ∙ if-false _ _ _ more)
  | inr none ↦ inl (if-false _ _ _ none)
]

transmit-true-Stalled : (s t : Server) → Stalled s t → Stalled s (transmit true t)
transmit-true-Stalled s t v = elim (transmit-true-cases t v.within) [
  | inl same ↦ rw same v
  | inr stopped ↦ rw stopped (record { within = v.within; untimed = refl; silent = v.silent })
]

body-Stalled :
    (b : Body) (p : Packet) (s t : Server) → NoAck b → Stalled s t → Stalled s (receive_body b p t)
unfolding receive_body
body-Stalled (ack_packet a) p s t n v = elim n [ ]
body-Stalled (signal k) p s t n v = v
body-Stalled (data_packet d) p s t n v = v
body-Stalled (unknown k) p s t n v = v
body-Stalled (update k) p s t n v = elim (Bool-cases (names_content p t)) [
  | inl named ↦ rw (if-true _ (transmit true t) t named) (transmit-true-Stalled s t v)
  | inr other ↦ rw (if-false _ (transmit true t) t other) v
]

receive-Stalled : (p : Packet) (s t : Server) → NoAck p.body → Stalled s t → Stalled s (receive p t)
unfolding receive
receive-Stalled p s t n v = body-Stalled p.body p s t n v

packets-Stalled :
    (ps : List Packet) (s t : Server) → NoAcks ps → Stalled s t → Stalled s (handle_packets ps t)
packets-Stalled [] s t n v = rw (handle_packets-nil t) v
packets-Stalled (p ∷ ps) s t n v =
    rw (handle_packets-cons p ps t)
      (packets-Stalled ps s (receive p t) n.1 (receive-Stalled p s t n.0 v))

-- A server within a transmission that has no timeout set sends nothing and stays so, whatever
-- packets but acknowledgements arrive.
pub Stalled-forever :
    (ps : List Packet) (s : Server)
    → NoAcks ps
    → transmission_complete s.sender ≡ false
    → s.sender.scheduled ≡ false
    → Stalled s (handle_packets ps s)
Stalled-forever ps s n within untimed =
    packets-Stalled ps s s n (record { within = within; untimed = untimed; silent = refl })

-- New ROM content that arrives during a transmission changes neither the content nor the hash that
-- are served and sends nothing; it is taken over when the transmission finishes.
pub update_deferred :
    (s : Server)
    → s.forwarder.transmitting ≡ true
    → let t = forwarder_update s in
      (t.tx ≡ s.tx)
      × (t.forwarder.rom ≡ s.forwarder.rom)
      × (t.forwarder.current_hash ≡ s.forwarder.current_hash)
      × ((finish_transmission t).forwarder.rom ≡ s.forwarder.pending)
unfolding forwarder_update finish_transmission send_update submit
update_deferred s busy = ground arith

-- A module name of at least 64 characters never equals the 63 characters a packet carries.
cut_differs : (name full : List ℕ) → 63 < length full → list_eq (take 63 name) full ≡ false
cut_differs name full long = elim (Bool-cases (list_eq (take 63 name) full)) [
  | inr differ ↦ differ
  | inl same ↦
      let equal : take 63 name ≡ full = list_eq_sound (take 63 name) full same in
      let clash : ⊥ = omega (arith, length-take 63 name, ap length equal) in elim clash [ ]
]

names_nothing :
    (name : List ℕ) (hash : ℕ) (b : Body) (s : Server)
    → s.sender.registered ≡ true
    → 63 < length s.forwarder.modulename
    → names_content (make_packet name hash b) s ≡ false
names_nothing name hash b s frontend long = if-false _ _ _ (
    ap (list_eq (take 63 name)) (if-true _ s.forwarder.modulename [] frontend)
    ∙ cut_differs name s.forwarder.modulename long)

-- A server with a frontend whose module name has more than 63 characters ignores every packet that
-- is made for whatever name, its own included.
pub long_name_ignored :
    (name : List ℕ) (hash : ℕ) (b : Body) (s : Server)
    → s.sender.registered ≡ true
    → 63 < length s.forwarder.modulename
    → receive (make_packet name hash b) s ≡ s
unfolding receive receive_body
long_name_ignored name hash (signal k) s frontend long = refl
long_name_ignored name hash (data_packet d) s frontend long = refl
long_name_ignored name hash (unknown k) s frontend long = refl
long_name_ignored name hash (update k) s frontend long =
    if-false _ _ _ (names_nothing name hash (update k) s frontend long)
long_name_ignored name hash (ack_packet a) s frontend long =
    elim (Bool-cases (is_transmitting s.sender)) [
      | inr idle ↦ if-false _ _ _ idle
      | inl busy ↦
          if-true _ _ _ busy
          ∙ if-false _ _ _ (names_nothing name hash (ack_packet a) s frontend long)
    ]
