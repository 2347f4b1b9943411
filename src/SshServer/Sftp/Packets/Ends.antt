-- ===== src/SshServer/Sftp/Packets/Ends.antt =====
-- The loop of `incoming_sftp_data` of src/server/ssh_server/sftp.cc comes to an end.
use genode_world.Prelude.{
  ℕ, zero, suc, ◌-◌, ◌≤◌, ◌<◌, ltb, ◌==◌, if◌then◌else◌, Bool, true, false, ◌||◌, List, [], ◌∷◌,
  ◌++◌, Option, none, some, length, ◌≡◌, refl, sym, ap, subst, arith, inl, inr, ◌⊎◌, length-drop,
  dec_le, dec_lt,
}
use genode_world.SshServer.Sftp.Packets.{
  PacketState, initial, payload_inited, size_read, type_read, payload_allocated, packet_assembled,
  Assembler, Assembly, taken, assembled, refused, fill, at_payload, at_size, with_size, at_inited,
  at_initial, in_packet_state, assemble, get_u32, packet_size_max, State, uninitialized, created,
  initialized, worker_closing, worker_finished, create_error, clean, Subsystem, Server,
  process_packet, in_state, consume_packet, assemble_packet, after_assembly, incoming_loop,
}
use genode_world.SshServer.Sftp.Packets.Split.{fill_full, fill_room}
use genode_world.SshServer.Sftp.Packets.Payload.{payload_done, payload_more}

-- What an assembly leaves: at most `n` bytes, if it is a packet.
abbrev pub Leaves : ℕ → Assembly → Type 0
Leaves n (taken a) = Unit
Leaves n (assembled r a) = length r ≤ n
Leaves n (refused a) = Unit

Leaves-le : (m n : ℕ) (o : Assembly) → Leaves m o → m ≤ n → Leaves n o
Leaves-le m n (taken a) h le = tt
Leaves-le m n (assembled r a) h le = omega arith
Leaves-le m n (refused a) h le = tt

payload-Leaves : (bytes : List ℕ) (a : Assembler) → Leaves (length bytes) (at_payload bytes a)
payload-Leaves bytes a = elim (dec_le a.packet_size_left (length bytes)) [
  | yes h ↦
      subst (Leaves (length bytes)) (sym (payload_done bytes a h))
        (omega (arith, length-drop a.packet_size_left bytes))
  | no h ↦ subst (Leaves (length bytes)) (sym (payload_more bytes a (omega arith))) tt
]

size-Leaves : (bytes : List ℕ) (a : Assembler) → Leaves (length bytes - 1) (at_size bytes a)
size-Leaves [] a = tt
size-Leaves (d ∷ bytes) a =
    Leaves-le (length bytes) (suc (length bytes) - 1) (at_payload bytes _) (payload-Leaves bytes _)
      (omega arith)

with_size-Leaves : (buf r : List ℕ) (a : Assembler) → Leaves (length r - 1) (with_size (buf, r) a)
with_size-Leaves buf r a =
    if_Leaves (length buf == 4) _ _
      (if_Leaves (get_u32 buf == 0 || ltb packet_size_max (get_u32 buf)) _ _ tt (size-Leaves r _))
      tt
  where
    if_Leaves :
        (b : Bool) (o p : Assembly)
        → Leaves (length r - 1) o
        → Leaves (length r - 1) p
        → Leaves (length r - 1) (if b then o else p)
    if_Leaves true o p h k = h
    if_Leaves false o p h k = k

fill_le : (buf bytes : List ℕ) → length (fill buf bytes).1 ≤ length bytes
unfolding fill
fill_le buf [] = omega arith
fill_le buf (d ∷ bytes) = elim (dec_lt (length buf) 4) [
  | yes room ↦ omega (
    arith,
    fill_le (buf ++ d ∷ []) bytes,
    ap (λ (p : List ℕ × List ℕ). length p.1) (fill_room buf bytes d room),
  )
  | no full ↦
      omega
        (arith, ap (λ (p : List ℕ × List ℕ). length p.1) (fill_full buf (d ∷ bytes) (omega arith)))
]

inited-Leaves : (bytes : List ℕ) (a : Assembler) → Leaves (length bytes - 1) (at_inited bytes a)
inited-Leaves bytes a =
    let r = (fill a.size_buffer bytes).1 in
    Leaves-le (length r - 1) (length bytes - 1) (at_inited bytes a)
      (with_size-Leaves (fill a.size_buffer bytes).0 r a)
      (omega (arith, fill_le a.size_buffer bytes))

initial-Leaves :
    (bytes : List ℕ) (a : Assembler)
    → a.packet_state ≡ initial
    → Leaves (length bytes - 1) (assemble bytes a)
unfolding assemble
initial-Leaves bytes a e =
    subst (λ s. Leaves (length bytes - 1) (in_packet_state s bytes a)) (sym e)
      (inited-Leaves bytes _)

assemble-Leaves : (bytes : List ℕ) (a : Assembler) → Leaves (length bytes) (assemble bytes a)
unfolding assemble
assemble-Leaves bytes a = by_state a.packet_state
  where
    less : (o : Assembly) → Leaves (length bytes - 1) o → Leaves (length bytes) o
    less o h = Leaves-le (length bytes - 1) (length bytes) o h (omega arith)

    by_state : (s : PacketState) → Leaves (length bytes) (in_packet_state s bytes a)
    by_state initial = less (at_initial bytes a) (inited-Leaves bytes _)
    by_state payload_inited = less (at_inited bytes a) (inited-Leaves bytes a)
    by_state size_read = less (at_size bytes a) (size-Leaves bytes a)
    by_state type_read = payload-Leaves bytes _
    by_state payload_allocated = payload-Leaves bytes a
    by_state packet_assembled = omega arith

module _ {Message : Type 0} (server : Server Message) where
  -- Processing a packet changes the state and the requests only.
  pub process_packet_keeps :
      {X : Type 0} (f : Subsystem Message → X) (s : Subsystem Message)
      → ((st : State) (rs : List (Option Message)) (t : Subsystem Message)
          → f (record t { state = st; requests = rs }) ≡ f t)
      → f (process_packet server s) ≡ f (consume_packet server s)
  unfolding process_packet
  process_packet_keeps f s inv = by_state s.state
    where
      t : Subsystem Message
      t = consume_packet server s

      by_init :
          (b : Bool)
          → f (
              if b
              then record t { state = initialized }
              else record t { state = worker_closing; requests = s.requests ++ none ∷ [] })
            ≡ f t
      by_init true = inv initialized s.requests t
      by_init false = inv worker_closing _ t

      by_state : (st : State) → f (in_state server st s.assembler.packet t) ≡ f t
      by_state uninitialized = inv s.state _ t
      by_state created = by_init (server.init s.assembler.packet)
      by_state initialized = inv s.state _ t
      by_state worker_closing = inv s.state _ t
      by_state worker_finished = inv s.state _ t
      by_state create_error = refl
      by_state clean = inv s.state _ t

  -- A packet that was processed leaves the assembler ready for the next one.
  pub process_packet_ready :
      (s : Subsystem Message)
      → (process_packet server s).assembler ≡ record (s.assembler) { packet_state = initial }
  process_packet_ready s =
      process_packet_keeps (λ (x : Subsystem Message). x.assembler) s (λ st rs t. refl)

  -- More fuel changes nothing.
  pub loop_fuel :
      (n m : ℕ) (bytes : List ℕ) (s : Subsystem Message) {v : ℕ × Subsystem Message}
      → incoming_loop server n bytes s ≡ some v
      → n ≤ m
      → incoming_loop server m bytes s ≡ some v
  unfolding incoming_loop
  loop_fuel zero m bytes s h le = cc
  loop_fuel (suc n) zero bytes s h le = absurd (omega arith)
  loop_fuel (suc n) (suc m) bytes s {v} h le =
      after (assemble_packet server bytes s)
        (λ bs s' e. loop_fuel n m bs s' {v = v} e (omega arith)) h
    where
      after :
          (o : Assembly)
          → ((bs : List ℕ) (s' : Subsystem Message)
              → incoming_loop server n bs s' ≡ some v
              → incoming_loop server m bs s' ≡ some v)
          → after_assembly server (incoming_loop server n) bytes s o ≡ some v
          → after_assembly server (incoming_loop server m) bytes s o ≡ some v
      after (taken a) ih h' = h'
      after (refused a) ih h' = h'
      after (assembled [] a) ih h' = h'
      after (assembled (d ∷ ds) a) ih h' = ih (d ∷ ds) _ h'

  -- Enough fuel: one more than the bytes, and two more if the first packet may be assembled already.
  abbrev pub Enough : ℕ → List ℕ → Subsystem Message → Type 0
  Enough n bytes s =
      ((s.assembler.packet_state ≡ initial) × (length bytes < n)) ⊎ (suc (length bytes) < n)

  pub loop_ends :
      (n : ℕ) (bytes : List ℕ) (s : Subsystem Message)
      → Enough n bytes s
      → (v : ℕ × Subsystem Message) × (incoming_loop server n bytes s ≡ some v)
  unfolding incoming_loop
  loop_ends zero bytes s h = absurd (never h)
    where
      never : Enough zero bytes s → ⊥
      never (inl (e, lt)) = omega arith
      never (inr lt) = omega arith
  loop_ends (suc n) bytes s h =
      after (assemble_packet server bytes s) (λ bs s' e. loop_ends n bs s' e) (left s.has_server h)
    where
      -- The bytes that are left have enough fuel.
      left :
          (b : Bool)
          → Enough (suc n) bytes s
          → Leaves (n - 1) (if b then assemble bytes s.assembler else taken s.assembler)
      left false h' = tt
      left true (inl (e, lt)) =
          Leaves-le (length bytes - 1) (n - 1) (assemble bytes s.assembler)
            (initial-Leaves bytes s.assembler e) (omega arith)
      left true (inr lt) =
          Leaves-le (length bytes) (n - 1) (assemble bytes s.assembler)
            (assemble-Leaves bytes s.assembler) (omega arith)

      after :
          (o : Assembly)
          → ((bs : List ℕ) (s' : Subsystem Message)
              → Enough n bs s'
              → (v : ℕ × Subsystem Message) × (incoming_loop server n bs s' ≡ some v))
          → Leaves (n - 1) o
          → (v : ℕ × Subsystem Message) × (after_assembly server (incoming_loop server n) bytes s o
              ≡ some v)
      after (taken a) ih l = (_, refl)
      after (refused a) ih l = (_, refl)
      after (assembled [] a) ih l = (_, refl)
      after (assembled (d ∷ ds) a) ih l =
          let s1 : Subsystem Message = record s { assembler = a } in
          let e = ap (λ (x : Assembler). x.packet_state) (process_packet_ready s1) in
          ih (d ∷ ds) (process_packet server s1) (inl (e, omega arith))

  pub loop_agrees :
      (n m : ℕ) (bytes : List ℕ) (s : Subsystem Message) (v w : ℕ × Subsystem Message)
      → incoming_loop server n bytes s ≡ some v
      → incoming_loop server m bytes s ≡ some w
      → v ≡ w
  loop_agrees n m bytes s v w h k = elim (dec_le n m) [
    | yes le ↦ cc (loop_fuel n m bytes s {v = v} h le, k)
    | no gt ↦ cc (h, loop_fuel m n bytes s {v = w} k (omega arith))
  ]
