-- ===== src/SshServer/Sftp/Packets/Chunks.antt =====
-- Packets for the SFTP subsystem of src/server/ssh_server/sftp.cc whose bytes come in any portions.
use genode_world.Prelude.{
  ℕ, zero, suc, ◌+◌, ◌/◌, ◌%◌, ◌<◌, ltb, ◌==◌, Bool, true, ◌||◌, List, [], ◌∷◌, ◌++◌, Option, none,
  some, length, ◌≡◌, refl, sym, ap, ◌∙◌, arith, inl, inr, ◌⊎◌, if-true, append-nil, u32,
}
use genode_world.SshServer.Sftp.Packets.{
  initial, payload_inited, Packet, Assembler, Assembly, taken, assembled, refused, with_size,
  in_packet_state, assemble, get_u32, packet_size_max, Subsystem, Server, process_packet,
  assemble_packet, after_assembly, incoming_loop, incoming_data, returned, channel_data,
}
use genode_world.SshServer.Sftp.Packets.Ends.{loop_ends, loop_agrees, process_packet_keeps}
use genode_world.SshServer.Sftp.Packets.Delivery.{loop-append, same_state, second_of}
use genode_world.SshServer.Sftp.Packets.Encode.{
  size_bytes, encode_all, Fit, After, packets-loop, fill_size, size_lem,
}

module _ {Message : Type 0} (server : Server Message) where
  loop_keeps_server :
      (n : ℕ) (bytes : List ℕ) (s s' : Subsystem Message) (r : ℕ)
      → incoming_loop server n bytes s ≡ some (r, s')
      → s'.has_server ≡ s.has_server
  unfolding incoming_loop
  loop_keeps_server zero bytes s s' r h = cc
  loop_keeps_server (suc n) bytes s s' r h =
      after (assemble_packet server bytes s) (λ bs t e. loop_keeps_server n bs t s' r e) h
    where
      has : Subsystem Message → Bool
      has x = x.has_server

      processed : (a : Assembler) → has (process_packet server (record s { assembler = a })) ≡ has s
      processed a = process_packet_keeps server has (record s { assembler = a }) (λ st rs t. refl)

      after :
          (o : Assembly)
          → ((bs : List ℕ) (t : Subsystem Message)
              → incoming_loop server n bs t ≡ some (r, s')
              → has s' ≡ has t)
          → after_assembly server (incoming_loop server n) bytes s o ≡ some (r, s')
          → has s' ≡ has s
      after (taken a) ih e = ap has (sym (same_state _ r _ s' e))
      after (refused a) ih e = ap has (sym (same_state _ r _ s' e))
      after (assembled [] a) ih e = ap has (sym (same_state _ r _ s' e)) ∙ processed a
      after (assembled (d ∷ ds) a) ih e = ih (d ∷ ds) _ e ∙ processed a

  abbrev pub concat : List (List ℕ) → List ℕ
  concat [] = []
  concat (c ∷ cs) = c ++ concat cs

  -- Portions that come one after the other.
  abbrev then_all :
      (Subsystem Message → Option (Subsystem Message))
      → Option (ℕ × Subsystem Message)
      → Option (Subsystem Message)
  then_all f none = none
  then_all f (some (n, s)) = f s

  unfoldable pub receive_all : List (List ℕ) → Subsystem Message → Option (Subsystem Message)
  receive_all [] s = some s
  receive_all (c ∷ cs) s = then_all (receive_all cs) (channel_data server c s)

  receive_all_empty :
      (cs : List (List ℕ)) (s : Subsystem Message) → concat cs ≡ [] → receive_all cs s ≡ some s
  unfolding receive_all
  receive_all_empty [] s e = refl
  receive_all_empty ([] ∷ cs) s e = receive_all_empty cs s e
  receive_all_empty ((y ∷ ys) ∷ cs) s e = cc

  -- A portion that is not empty goes through the loop.
  portion :
      (y : ℕ) (ys : List ℕ) (cs : List (List ℕ)) (s : Subsystem Message)
      → (q : ℕ) × (s2 : Subsystem Message) × (incoming_loop server
            (suc (suc (length (y ∷ ys))))
            (y ∷ ys)
            s
          ≡ some (q, s2))
        × (receive_all ((y ∷ ys) ∷ cs) s ≡ receive_all cs s2)
  unfolding receive_all incoming_data
  portion y ys cs s =
      let ((q, s2), e) =
        loop_ends server (suc (suc (length (y ∷ ys)))) (y ∷ ys) s (inr (omega arith)) in
      (q, s2, e, ap (λ o. then_all (receive_all cs) (returned server (length (y ∷ ys)) o)) e)

  receive_all-loop :
      (cs : List (List ℕ)) (z : ℕ) (zs : List ℕ) (n : ℕ) (s s1 : Subsystem Message) (r : ℕ)
      → concat cs ≡ z ∷ zs
      → s.has_server ≡ true
      → incoming_loop server n (z ∷ zs) s ≡ some (r, s1)
      → receive_all cs s ≡ some s1
  unfolding receive_all
  receive_all-loop [] z zs n s s1 r e has h = cc
  receive_all-loop ([] ∷ cs) z zs n s s1 r e has h = receive_all-loop cs z zs n s s1 r e has h
  receive_all-loop ((y ∷ ys) ∷ cs) z zs n s s1 r e has h =
      let (q, s2, e2, go) = portion y ys cs s in
      let has2 = loop_keeps_server _ (y ∷ ys) s s2 q e2 ∙ has in
      go
      ∙ others (concat cs) refl q s2 e2
          (λ w ws m s3 p we le. receive_all-loop cs w ws m s2 s3 p we has2 le)
    where
      whole :
          (ws : List ℕ) → concat cs ≡ ws → incoming_loop server n (y ∷ ys ++ ws) s ≡ some (r, s1)
      whole ws eq = ap (λ x. incoming_loop server n x s) (sym (ap (λ v. y ∷ ys ++ v) eq) ∙ e) ∙ h

      others :
          (ws : List ℕ)
          → concat cs ≡ ws
          → (q : ℕ) (s2 : Subsystem Message)
          → incoming_loop server (suc (suc (length (y ∷ ys)))) (y ∷ ys) s ≡ some (q, s2)
          → ((w : ℕ) (ws : List ℕ) (m : ℕ) (s3 : Subsystem Message) (p : ℕ)
              → concat cs ≡ w ∷ ws
              → incoming_loop server m (w ∷ ws) s2 ≡ some (p, s3)
              → receive_all cs s2 ≡ some s3)
          → receive_all cs s2 ≡ some s1
      others [] eq q s2 e2 ih =
          let all =
            ap (λ x. incoming_loop server n (y ∷ x) s) (sym (append-nil ys)) ∙ whole [] eq in
          receive_all_empty cs s2 eq
          ∙ ap some (second_of q r s2 s1 (loop_agrees server _ n (y ∷ ys) s (q, s2) (r, s1) e2 all))
      others (w ∷ ws) eq q s2 e2 ih =
          let ((p, s3), e3) =
            loop_ends server (suc (suc (length (w ∷ ws)))) (w ∷ ws) s2 (inr (omega arith)) in
          ih w ws _ s3 p eq e3
          ∙ ap some (
              loop-append server n _ _ (y ∷ ys) w ws s s1 s2 s3 r q p has (whole (w ∷ ws) eq) e2 e3)

  -- If packets that fit come as bytes in any portions, empty ones included, and the subsystem has
  -- a server and waits for a packet, the data is received with the effect of the packets one by
  -- one: the first sets the server up if the state is `CREATED`, the others are enqueued as
  -- messages or ignored. The subsystem then waits for a packet again.
  pub receive_all-encode_all :
      (chunks : List (List ℕ)) (ps : List Packet) (s : Subsystem Message)
      → concat chunks ≡ encode_all ps
      → Fit ps
      → s.has_server ≡ true
      → s.assembler.packet_state ≡ initial
      → (s' : Subsystem Message) × (receive_all chunks s ≡ some s') × After server ps s s'
  receive_all-encode_all chunks [] s e fit has st =
      (s, receive_all_empty chunks s e, record { assembler_ready = st; effect = refl })
  receive_all-encode_all chunks (p ∷ ps) s e fit has st =
      let (r, s', h, af) = packets-loop server (suc (length ps)) p ps s (omega arith) has st fit in
      (s', receive_all-loop chunks _ _ (suc (length ps)) s s' r e has h, af)

  -- Behind a size that is 0 or too large, nothing is ever taken for a packet, and the state stays.
  pub receive_all-bad_size :
      (chunks : List (List ℕ)) (n : ℕ) (rest : List ℕ) (s : Subsystem Message)
      → concat chunks ≡ size_bytes n ++ rest
      → (n ≡ 0) ⊎ (packet_size_max < n)
      → s.has_server ≡ true
      → s.assembler.packet_state ≡ initial
      → (s' : Subsystem Message) × (receive_all chunks s ≡ some s')
        × (s'.requests ≡ s.requests)
        × (s'.state ≡ s.state)
  unfolding incoming_loop assemble
  receive_all-bad_size chunks n rest s e bad has st =
      let a0 : Assembler = record (s.assembler) {
        packet = record (s.assembler.packet) { payload = [] };
        size_buffer = [];
        packet_state = payload_inited;
      } in
      let a1 : Assembler = record a0 {
        size_buffer = size_bytes n;
        packet_size_left = get_u32 (size_bytes n);
      } in
      let z : (get_u32 (size_bytes n) == 0 || ltb packet_size_max (get_u32 (size_bytes n))) ≡ true =
        refuses bad in
      let h : incoming_loop server 1 (size_bytes n ++ rest) s
          ≡ some (u32 (length (size_bytes n ++ rest) + 1), record s { assembler = a1 }) =
        ap (after_assembly server (incoming_loop server 0) (size_bytes n ++ rest) s) (
          if-true s.has_server _ _ has
          ∙ ap (λ x. in_packet_state x (size_bytes n ++ rest) s.assembler) st
          ∙ ap (λ o. with_size o a0)
              (fill_size (n / 16777216) (n / 65536 % 256) (n / 256 % 256) (n % 256) rest)
          ∙ if-true _ _ _ z) in
      (
        record s { assembler = a1 },
        receive_all-loop chunks _ _ 1 s (record s { assembler = a1 }) _ e has h,
        refl,
        refl,
      )
    where
      refuses :
          (n ≡ 0) ⊎ (packet_size_max < n)
          → (get_u32 (size_bytes n) == 0 || ltb packet_size_max (get_u32 (size_bytes n))) ≡ true
      refuses (inl z) = ground (arith, size_lem n)
      refuses (inr z) = ground (arith, size_lem n)
