-- ===== src/SshServer/Sftp/Packets/Delivery.antt =====
-- What `incoming_sftp_data` of src/server/ssh_server/sftp.cc delivers of packets that come in parts.
use genode_world.Prelude.{
  ℕ, zero, suc, ◌+◌, ltb, ◌==◌, if◌then◌else◌, true, Bool-cases, ◌||◌, List, [], ◌∷◌, ◌++◌, Option,
  some, length, ◌≡◌, refl, sym, ap, ◌∙◌, subst, arith, inl, inr, if-true, if-false, ℕ_discrete, u32,
}
use genode_world.SshServer.Sftp.Packets.{
  PacketState, initial, payload_inited, size_read, type_read, payload_allocated, packet_assembled,
  Assembler, Assembly, taken, assembled, refused, fill, at_payload, at_size, with_size, at_inited,
  in_packet_state, assemble, get_u32, packet_size_max, Subsystem, Server, process_packet,
  assemble_packet, after_assembly, incoming_loop,
}
use genode_world.SshServer.Sftp.Packets.Payload.{payload_done, payload_more, then_assemble}
use genode_world.SshServer.Sftp.Packets.Split.{fill_full, assemble-append}
use genode_world.SshServer.Sftp.Packets.Ends.{process_packet_keeps, loop_agrees}

-- A refusal is final.
abbrev Final : List ℕ → Assembly → Type 0
Final ys (taken a) = Unit
Final ys (assembled r a) = Unit
Final ys (refused a) = assemble ys a ≡ refused a

payload-Final : (ys bytes : List ℕ) (a : Assembler) → Final ys (at_payload bytes a)
payload-Final ys bytes a = elim (Bool-cases (ltb (length bytes) a.packet_size_left)) [
  | inl h ↦ subst (Final ys) (sym (payload_more bytes a (ground arith))) tt
  | inr h ↦ subst (Final ys) (sym (payload_done bytes a (ground arith))) tt
]

size-Final : (ys bytes : List ℕ) (a : Assembler) → Final ys (at_size bytes a)
size-Final ys [] a = tt
size-Final ys (d ∷ bytes) a = payload-Final ys bytes _

inited-Final :
    (ys bytes : List ℕ) (a : Assembler)
    → a.packet_state ≡ payload_inited
    → Final ys (at_inited bytes a)
unfolding assemble
inited-Final ys bytes a st = sized (fill a.size_buffer bytes).0 (fill a.size_buffer bytes).1
  where
    sized : (buf r : List ℕ) → Final ys (with_size (buf, r) a)
    sized buf r =
        let a' : Assembler = record a { size_buffer = buf; packet_size_left = get_u32 buf } in
        let tested = λ (z : List ℕ) (b : Assembler) (good : Assembly).
          if get_u32 buf == 0 || ltb packet_size_max (get_u32 buf) then refused a' else good in
        elim (ℕ_discrete (length buf) 4) [
          | no ne ↦ subst (Final ys) (sym (if-false (length buf == 4) _ _ (ground (arith, ne)))) tt
          | yes e ↦ elim (Bool-cases (get_u32 buf == 0 || ltb packet_size_max (get_u32 buf))) [
            | inr good ↦
                subst (Final ys)
                  (sym (if-true (length buf == 4) _ _ (ground (arith, e)) ∙ if-false _ _ _ good))
                  (size-Final ys r _)
            | inl bad ↦
                subst (Final ys)
                  (sym (if-true (length buf == 4) _ _ (ground (arith, e)) ∙ if-true _ _ _ bad))
                  (ap (λ s. in_packet_state s ys a') st
                    ∙ ap (λ o. with_size o a') (fill_full buf ys (omega (arith, e)))
                    ∙ if-true (length buf == 4) _ _ (ground (arith, e))
                    ∙ if-true _ _ _ bad)
          ]
        ]

assemble-Final : (ys bytes : List ℕ) (a : Assembler) → Final ys (assemble bytes a)
unfolding assemble
assemble-Final ys bytes a = by_state a.packet_state refl
  where
    by_state : (s : PacketState) → a.packet_state ≡ s → Final ys (in_packet_state s bytes a)
    by_state initial e = inited-Final ys bytes _ refl
    by_state payload_inited e = inited-Final ys bytes a e
    by_state size_read e = size-Final ys bytes a
    by_state type_read e = payload-Final ys bytes _
    by_state payload_allocated e = payload-Final ys bytes a
    by_state packet_assembled e = tt

pub same_state :
    {S : Type 0} (v w : ℕ) (t u : S) → ◌≡◌ {A = Option (ℕ × S)} (some (v, t)) (some (w, u)) → t ≡ u
same_state v w t u e = cc

pub second_of : {S : Type 0} (v w : ℕ) (t u : S) → ◌≡◌ {A = ℕ × S} (v, t) (w, u) → t ≡ u
second_of v w t u e = cc

module _ {Message : Type 0} (server : Server Message) where
  after_again :
      (again : List ℕ → Subsystem Message → Option (ℕ × Subsystem Message)) (bytes : List ℕ)
      (s : Subsystem Message) (a : Assembler) (o : Assembly)
      → after_assembly server again bytes (record s { assembler = a }) o
        ≡ after_assembly server again bytes s o
  after_again again bytes s a (taken b) = refl
  after_again again bytes s a (refused b) = refl
  after_again again bytes s a (assembled [] b) = refl
  after_again again bytes s a (assembled (d ∷ ds) b) = refl

  -- How many bytes are at hand does not matter for the state, but for a refusal's number.
  other_bytes :
      (n : ℕ) (xs ys : List ℕ) (s s1 : Subsystem Message) (r : ℕ) (o : Assembly)
      → after_assembly server (incoming_loop server n) xs s o ≡ some (r, s1)
      → (r' : ℕ) × (after_assembly server (incoming_loop server n) ys s o ≡ some (r', s1))
  other_bytes n xs ys s s1 r (taken b) h = (r, h)
  other_bytes n xs ys s s1 r (refused b) h = (
    u32 (length ys + 1),
    let e : record s { assembler = b } ≡ s1 = cc in ap (λ t. some (u32 (length ys + 1), t)) e,
  )
  other_bytes n xs ys s s1 r (assembled [] b) h = (r, h)
  other_bytes n xs ys s s1 r (assembled (d ∷ ds) b) h = (r, h)

  served :
      (bytes : List ℕ) (s : Subsystem Message)
      → s.has_server ≡ true
      → assemble_packet server bytes s ≡ assemble bytes s.assembler
  served bytes s has = if-true s.has_server _ _ has

  -- The data of two parts, of which the second is not empty, does what the parts do.
  pub loop-append :
      (n m k : ℕ) (xs : List ℕ) (y : ℕ) (ys : List ℕ) (s s1 s2 s3 : Subsystem Message) (r q p : ℕ)
      → s.has_server ≡ true
      → incoming_loop server n (xs ++ y ∷ ys) s ≡ some (r, s1)
      → incoming_loop server m xs s ≡ some (q, s2)
      → incoming_loop server k (y ∷ ys) s2 ≡ some (p, s3)
      → s3 ≡ s1
  unfolding incoming_loop
  loop-append zero m k xs y ys s s1 s2 s3 r q p has h1 h2 h3 = cc
  loop-append (suc n) zero k xs y ys s s1 s2 s3 r q p has h1 h2 h3 = cc
  loop-append (suc n) (suc m) zero xs y ys s s1 s2 s3 r q p has h1 h2 h3 = cc
  loop-append (suc n) (suc m) (suc k) xs y ys s s1 s2 s3 r q p has h1 h2 h3 =
      by_first (assemble xs s.assembler) (assemble-Final (y ∷ ys) xs s.assembler)
        (λ xs' s' h h' h''. loop-append n m (suc k) xs' y ys s' s1 s2 s3 r q p h h' h'' h3)
        (ap (after_assembly server (incoming_loop server m) xs s) (sym (served xs s has)) ∙ h2)
        (ap (after_assembly server (incoming_loop server n) (xs ++ y ∷ ys) s)
            (sym (served (xs ++ y ∷ ys) s has ∙ assemble-append xs (y ∷ ys) s.assembler))
          ∙ h1)
    where
      by_first :
          (o : Assembly)
          → Final (y ∷ ys) o
          → ((xs' : List ℕ) (s' : Subsystem Message)
              → s'.has_server ≡ true
              → incoming_loop server n (xs' ++ y ∷ ys) s' ≡ some (r, s1)
              → incoming_loop server m xs' s' ≡ some (q, s2)
              → s3 ≡ s1)
          → after_assembly server (incoming_loop server m) xs s o ≡ some (q, s2)
          → after_assembly server
              (incoming_loop server n)
              (xs ++ y ∷ ys)
              s
              (then_assemble o (y ∷ ys))
            ≡ some (r, s1)
          → s3 ≡ s1
      by_first (taken a) fin ih e2 e1 =
          let t : Subsystem Message = record s { assembler = a } in
          let (r', e) = other_bytes n (xs ++ y ∷ ys) (y ∷ ys) s s1 r (assemble (y ∷ ys) a) e1 in
          let whole : incoming_loop server (suc n) (y ∷ ys) t ≡ some (r', s1) =
            ap (after_assembly server (incoming_loop server n) (y ∷ ys) t) (served (y ∷ ys) t has)
            ∙ after_again (incoming_loop server n) (y ∷ ys) s a (assemble (y ∷ ys) a)
            ∙ e in
          let parts = ap (incoming_loop server (suc k) (y ∷ ys)) (same_state 0 q t s2 e2) ∙ h3 in
          second_of p r' s3 s1
            (loop_agrees server (suc k) (suc n) (y ∷ ys) t (p, s3) (r', s1) parts whole)
      by_first (refused a) fin ih e2 e1 =
          let t : Subsystem Message = record s { assembler = a } in
          let parts =
            sym (
              ap (after_assembly server (incoming_loop server k) (y ∷ ys) t)
                (served (y ∷ ys) t has ∙ fin))
            ∙ ap (incoming_loop server (suc k) (y ∷ ys)) (same_state _ q t s2 e2)
            ∙ h3 in
          sym (same_state _ p t s3 parts) ∙ same_state _ r t s1 e1
      by_first (assembled [] a) fin ih e2 e1 =
          let t : Subsystem Message = process_packet server (record s { assembler = a }) in
          let parts = ap (incoming_loop server (suc k) (y ∷ ys)) (same_state 0 q t s2 e2) ∙ h3 in
          second_of p r s3 s1 (loop_agrees server (suc k) n (y ∷ ys) t (p, s3) (r, s1) parts e1)
      by_first (assembled (d ∷ ds) a) fin ih e2 e1 =
          ih (d ∷ ds) _
            (process_packet_keeps server (λ (x : Subsystem Message). x.has_server)
                (record s { assembler = a }) (λ st rs t. refl)
              ∙ has)
            e1 e2
