-- ===== src/SshServer/Sftp/Packets/Encode.antt =====
-- Packets for the SFTP subsystem of src/server/ssh_server/sftp.cc, as bytes.
use genode_world.Prelude.{
  ℕ, zero, suc, ◌-◌, ◌/◌, ◌%◌, ◌<◌, ltb, ◌==◌, if◌then◌else◌, Bool, true, false, ◌||◌, List, [],
  ◌∷◌, ◌++◌, none, some, length, take, drop, ◌≡◌, refl, sym, ap, ◌∙◌, arith, if-true, if-false,
  take-append_length, drop-append_length, length-append,
}
use genode_world.SshServer.Sftp.Packets.{
  initial, payload_inited, size_read, payload_allocated, packet_assembled, Packet, Assembler,
  Assembly, assembled, fill, at_payload, with_size, in_packet_state, assemble, get_u32,
  packet_size_max, State, uninitialized, created, initialized, worker_closing, worker_finished,
  create_error, clean, Subsystem, Server, in_state, process_packet, consume_packet, after_assembly,
  incoming_loop,
}
use genode_world.SshServer.Sftp.Packets.Split.{fill_full, fill_room}
use genode_world.SshServer.Sftp.Packets.Payload.{payload_done}
use genode_world.SshServer.Sftp.Packets.Ends.{process_packet_keeps}

-- The bytes of a packet: its size in four bytes, its type and its payload.
abbrev pub size_bytes : ℕ → List ℕ
size_bytes n = n / 16777216 ∷ n / 65536 % 256 ∷ n / 256 % 256 ∷ n % 256 ∷ []

abbrev pub encode : Packet → List ℕ
encode p = size_bytes (suc (length p.payload)) ++ p.type ∷ p.payload

abbrev pub encode_all : List Packet → List ℕ
encode_all [] = []
encode_all (p ∷ ps) = encode p ++ encode_all ps

abbrev pub Fit : List Packet → Type 0
Fit [] = Unit
Fit (p ∷ ps) = (length p.payload < packet_size_max) × Fit ps

pub size_lem : (n : ℕ) → get_u32 (size_bytes n) ≡ n
size_lem n = omega arith

pub fill_size : (a b c d : ℕ) (r : List ℕ) → fill [] (a ∷ b ∷ c ∷ d ∷ r) ≡ (a ∷ b ∷ c ∷ d ∷ [], r)
fill_size a b c d r =
    fill_room [] (b ∷ c ∷ d ∷ r) a (omega arith)
    ∙ fill_room (a ∷ []) (c ∷ d ∷ r) b (omega arith)
    ∙ fill_room (a ∷ b ∷ []) (d ∷ r) c (omega arith)
    ∙ fill_room (a ∷ b ∷ c ∷ []) r d (omega arith)
    ∙ fill_full (a ∷ b ∷ c ∷ d ∷ []) r (omega arith)

payload_whole :
    (payload rest : List ℕ) (a : Assembler)
    → a.packet_size_left ≡ length payload
    → at_payload (payload ++ rest) a
      ≡ assembled rest (record a {
        packet_state = packet_assembled;
        packet_size_left = 0;
        packet = record (a.packet) { payload = a.packet.payload ++ payload };
      })
payload_whole payload rest a e =
    let out : List ℕ → ℕ → List ℕ → Assembly = λ r n t. assembled r (record a {
      packet_state = packet_assembled;
      packet_size_left = n;
      packet = record (a.packet) { payload = a.packet.payload ++ t };
    }) in
    let left = a.packet_size_left in
    let z : left - left ≡ 0 = omega arith in
    payload_done (payload ++ rest) a (omega (arith, length-append payload rest))
    ∙ ap (λ r. out r (left - left) (take left (payload ++ rest)))
        (ap (λ n. drop n (payload ++ rest)) e ∙ drop-append_length payload rest)
    ∙ ap (λ n. out rest n (take left (payload ++ rest))) z
    ∙ ap (λ t. out rest 0 t)
        (ap (λ n. take n (payload ++ rest)) e ∙ take-append_length payload rest)

assemble-encode :
    (p : Packet) (rest : List ℕ) (a : Assembler)
    → a.packet_state ≡ initial
    → length p.payload < packet_size_max
    → (b : Assembler) × (assemble (encode p ++ rest) a ≡ assembled rest b) × (b.packet ≡ p)
unfolding assemble
assemble-encode p rest a st h =
    let n = suc (length p.payload) in
    let a0 : Assembler = record a {
      packet = record (a.packet) { payload = [] };
      size_buffer = [];
      packet_state = payload_inited;
    } in
    let a1 : Assembler = record a0 {
      size_buffer = size_bytes n;
      packet_size_left = get_u32 (size_bytes n);
      packet_state = size_read;
    } in
    let a2 : Assembler = record a1 {
      packet = record (a1.packet) { type = p.type };
      packet_size_left = get_u32 (size_bytes n) - 1;
      packet_state = payload_allocated;
    } in
    let good : (get_u32 (size_bytes n) == 0 || ltb packet_size_max (get_u32 (size_bytes n)))
        ≡ false =
      ground (arith, size_lem n) in
    (
      _,
      ap (λ s. in_packet_state s (encode p ++ rest) a) st
          ∙ ap (λ o. with_size o a0)
              (fill_size (n / 16777216) (n / 65536 % 256) (n / 256 % 256) (n % 256)
                (p.type ∷ (p.payload ++ rest)))
          ∙ if-false _ _ _ good
          ∙ payload_whole p.payload rest a2 (omega (arith, size_lem n)),
      refl,
    )

module _ {Message : Type 0} (server : Server Message) where
  -- What a packet does to the state and the requests.
  abbrev pub accept : Packet → Subsystem Message → Subsystem Message
  accept p s = in_state server s.state p s

  abbrev pub accept_all : List Packet → Subsystem Message → Subsystem Message
  accept_all [] s = s
  accept_all (p ∷ ps) s = accept_all ps (accept p s)

  in_state_beside :
      (st : State) (p : Packet) (s : Subsystem Message) (b : Assembler)
      → in_state server st p (record s { assembler = b })
        ≡ record (in_state server st p s) { assembler = b }
  in_state_beside uninitialized p s b = refl
  in_state_beside initialized p s b = refl
  in_state_beside worker_closing p s b = refl
  in_state_beside worker_finished p s b = refl
  in_state_beside create_error p s b = refl
  in_state_beside clean p s b = refl
  in_state_beside created p s b = by_init (server.init p)
    where
      by_init :
          (c : Bool)
          → (if c then record s { assembler = b; state = initialized } else record s {
            assembler = b;
            state = worker_closing;
            requests = s.requests ++ none ∷ [];
          })
            ≡ record (if c
                then record s { state = initialized }
                else record s { state = worker_closing; requests = s.requests ++ none ∷ [] }) {
                  assembler = b;
                }
      by_init true = refl
      by_init false = refl

  accept_all_beside :
      (ps : List Packet) (s : Subsystem Message) (b : Assembler)
      → accept_all ps (record s { assembler = b }) ≡ record (accept_all ps s) { assembler = b }
  accept_all_beside [] s b = refl
  accept_all_beside (p ∷ ps) s b =
      ap (accept_all ps) (in_state_beside s.state p s b) ∙ accept_all_beside ps (accept p s) b

  process-accept :
      (p : Packet) (s : Subsystem Message) (a : Assembler)
      → a.packet ≡ p
      → process_packet server (record s { assembler = a })
        ≡ record (accept p s) { assembler = record a { packet_state = initial } }
  unfolding process_packet
  process-accept p s a e =
      ap (λ x. in_state server s.state x (consume_packet server (record s { assembler = a }))) e
      ∙ in_state_beside s.state p s (record a { packet_state = initial })

  -- A subsystem after packets: their effect, and an assembler that is ready.
  pub record After (ps : List Packet) (s s' : Subsystem Message) : Type 0 where
    pub assembler_ready : s'.assembler.packet_state ≡ initial
    pub effect : s' ≡ record (accept_all ps s) { assembler = s'.assembler }

  pub packets-loop :
      (n : ℕ) (p : Packet) (ps : List Packet) (s : Subsystem Message)
      → length ps < n
      → s.has_server ≡ true
      → s.assembler.packet_state ≡ initial
      → Fit (p ∷ ps)
      → (r : ℕ) × (s' : Subsystem Message) × (incoming_loop server n (encode_all (p ∷ ps)) s
          ≡ some (r, s'))
        × After (p ∷ ps) s s'
  unfolding incoming_loop
  packets-loop zero p ps s lt has st fit = absurd (omega arith)
  packets-loop (suc n) p [] s lt has st (f, fit) =
      let (b, e, pk) = assemble-encode p [] s.assembler st f in
      (
        0,
        _,
        ap (after_assembly server (incoming_loop server n) (encode p ++ []) s)
              (if-true s.has_server _ _ has ∙ e)
            ∙ ap (λ t. some (0, t)) (process-accept p s b pk),
        record { assembler_ready = refl; effect = refl },
      )
  packets-loop (suc n) p (q ∷ qs) s lt has st (f, fit) =
      let (b, e, pk) = assemble-encode p (encode_all (q ∷ qs)) s.assembler st f in
      let c : Assembler = record b { packet_state = initial } in
      let s1 : Subsystem Message = record (accept p s) { assembler = c } in
      let has1 : s1.has_server ≡ true =
        ap (λ (x : Subsystem Message). x.has_server) (sym (process-accept p s b pk))
        ∙ process_packet_keeps server (λ (x : Subsystem Message). x.has_server)
            (record s { assembler = b }) (λ st rs t. refl)
        ∙ has in
      let (r, s', e', af) = packets-loop n q qs s1 (omega arith) has1 refl fit in
      (
        r,
        s',
        ap (after_assembly server (incoming_loop server n) (encode p ++ encode_all (q ∷ qs)) s)
              (if-true s.has_server _ _ has ∙ e)
            ∙ ap (incoming_loop server n (encode_all (q ∷ qs))) (process-accept p s b pk)
            ∙ e',
        record {
          assembler_ready = af.assembler_ready;
          effect =
              af.effect
              ∙ ap (λ (x : Subsystem Message). record x { assembler = s'.assembler })
                  (accept_all_beside (q ∷ qs) (accept p s) c);
        },
      )
