-- ===== src/SshServer/Sftp/Packets/Split.antt =====
-- Data for the SFTP subsystem of src/server/ssh_server/sftp.cc that comes in two parts.
use genode_world.Prelude.{
  ℕ, ◌≤◌, ◌<◌, ltb, ◌==◌, if◌then◌else◌, Bool-cases, ◌||◌, List, [], ◌∷◌, ◌++◌, length, ◌≡◌, ◌≢◌,
  refl, sym, ap, ◌∙◌, arith,
}
use genode_world.Prelude.{inl, inr, dec_lt, ℕ_discrete, if-true, if-false}
use genode_world.SshServer.Sftp.Packets.{
  PacketState, initial, payload_inited, size_read, type_read, payload_allocated, packet_assembled,
  Assembler, taken, refused, fill, at_size, with_size, at_inited, in_packet_state, assemble,
  get_u32, packet_size_max,
}
use genode_world.SshServer.Sftp.Packets.Payload.{then_assemble, payload-append}

size-append :
    (xs ys : List ℕ) (a : Assembler)
    → a.packet_state ≡ size_read
    → at_size (xs ++ ys) a ≡ then_assemble (at_size xs a) ys
unfolding assemble
size-append [] ys a st = ap (λ s. in_packet_state s ys a) (sym st)
size-append (x ∷ xs) ys a st = payload-append xs ys _ refl

pub fill_full : (buf ys : List ℕ) → 4 ≤ length buf → fill buf ys ≡ (buf, ys)
unfolding fill
fill_full buf [] h = refl
fill_full buf (y ∷ ys) h = if-false (ltb (length buf) 4) _ _ (ground arith)

pub fill_room :
    (buf xs : List ℕ) (x : ℕ) → length buf < 4 → fill buf (x ∷ xs) ≡ fill (buf ++ x ∷ []) xs
unfolding fill
fill_room buf xs x h = if-true (ltb (length buf) 4) _ _ (ground arith)

fill-append_full :
    (buf xs ys : List ℕ)
    → 4 ≤ length (fill buf xs).0
    → fill buf (xs ++ ys) ≡ ((fill buf xs).0, (fill buf xs).1 ++ ys)
unfolding fill
fill-append_full buf [] ys h = fill_full buf ys h
fill-append_full buf (x ∷ xs) ys h = elim (dec_lt (length buf) 4) [
  | no full ↦
      let e = fill_full buf (x ∷ xs) (omega arith) in
      fill_full buf (x ∷ (xs ++ ys)) (omega arith)
      ∙ ap (λ (p : List ℕ × List ℕ). (p.0, p.1 ++ ys)) (sym e)
  | yes room ↦
      let e = fill_room buf xs x room in
      fill_room buf (xs ++ ys) x room
      ∙ fill-append_full (buf ++ x ∷ []) xs ys
          (omega (arith, ap (λ (p : List ℕ × List ℕ). length p.0) e))
      ∙ ap (λ (p : List ℕ × List ℕ). (p.0, p.1 ++ ys)) (sym e)
]

fill-append_room :
    (buf xs ys : List ℕ)
    → length (fill buf xs).0 < 4
    → fill buf (xs ++ ys) ≡ fill (fill buf xs).0 ys
unfolding fill
fill-append_room buf [] ys h = refl
fill-append_room buf (x ∷ xs) ys h = elim (dec_lt (length buf) 4) [
  | no full ↦
      let e = fill_full buf (x ∷ xs) (omega arith) in
      absurd (omega (arith, ap (λ (p : List ℕ × List ℕ). length p.0) e))
  | yes room ↦
      let e = fill_room buf xs x room in
      fill_room buf (xs ++ ys) x room
      ∙ fill-append_room (buf ++ x ∷ []) xs ys
          (omega (arith, ap (λ (p : List ℕ × List ℕ). length p.0) e))
      ∙ ap (λ (p : List ℕ × List ℕ). fill p.0 ys) (sym e)
]

-- The size that is read is stored by itself.
with_size_again :
    (o : List ℕ × List ℕ) (buf : List ℕ) (a : Assembler)
    → with_size o (record a { size_buffer = buf }) ≡ with_size o a
with_size_again (b, r) buf a = refl

with_size-append :
    (buf r ys : List ℕ) (a : Assembler)
    → length buf ≡ 4
    → a.packet_state ≡ payload_inited
    → with_size (buf, r ++ ys) a ≡ then_assemble (with_size (buf, r) a) ys
with_size-append buf r ys a h st =
    let full = λ (z : List ℕ).
      if-true (length buf == 4)
        (if get_u32 buf == 0 || ltb packet_size_max (get_u32 buf)
          then refused (record a { size_buffer = buf; packet_size_left = get_u32 buf })
          else at_size z (record a {
            size_buffer = buf;
            packet_size_left = get_u32 buf;
            packet_state = size_read;
          }))
        (taken (record a { size_buffer = buf })) (ground (arith, h)) in
    elim (Bool-cases (get_u32 buf == 0 || ltb packet_size_max (get_u32 buf))) [
      | inl bad ↦
          full (r ++ ys)
          ∙ if-true _ _ _ bad
          ∙ ap (λ o. then_assemble o ys) (sym (full r ∙ if-true _ _ _ bad))
      | inr good ↦
          full (r ++ ys)
          ∙ if-false _ _ _ good
          ∙ size-append r ys _ refl
          ∙ ap (λ o. then_assemble o ys) (sym (full r ∙ if-false _ _ _ good))
    ]

with_size_short :
    (buf r : List ℕ) (a : Assembler)
    → length buf ≢ 4
    → with_size (buf, r) a ≡ taken (record a { size_buffer = buf })
with_size_short buf r a h = if-false (length buf == 4) _ _ (ground (arith, h))

inited-append :
    (xs ys : List ℕ) (a : Assembler)
    → a.packet_state ≡ payload_inited
    → at_inited (xs ++ ys) a ≡ then_assemble (at_inited xs a) ys
unfolding assemble
inited-append xs ys a st =
    let buf = (fill a.size_buffer xs).0 in
    let r = (fill a.size_buffer xs).1 in
    let next = ap (λ s. in_packet_state s ys (record a { size_buffer = buf })) (sym st) in
    elim (dec_lt (length buf) 4) [
      | yes room ↦
          ap (λ o. with_size o a) (fill-append_room a.size_buffer xs ys room)
          ∙ sym (with_size_again (fill buf ys) buf a)
          ∙ next
          ∙ ap (λ o. then_assemble o ys) (sym (with_size_short buf r a (λ e. omega arith)))
      | no full ↦
          ap (λ o. with_size o a) (fill-append_full a.size_buffer xs ys (omega arith))
          ∙ elim (ℕ_discrete (length buf) 4) [
            | yes e ↦ with_size-append buf r ys a e st
            | no ne ↦
                with_size_short buf (r ++ ys) a ne
                ∙ sym (with_size_short buf ys (record a { size_buffer = buf }) ne)
                ∙ ap (λ o. with_size o (record a { size_buffer = buf }))
                    (sym (fill_full buf ys (omega arith)))
                ∙ next
                ∙ ap (λ o. then_assemble o ys) (sym (with_size_short buf r a ne))
          ]
    ]

-- What is assembled does not depend on where the data is split.
pub assemble-append :
    (xs ys : List ℕ) (a : Assembler) → assemble (xs ++ ys) a ≡ then_assemble (assemble xs a) ys
unfolding assemble
assemble-append xs ys a = by_state a.packet_state refl
  where
    by_state :
        (s : PacketState)
        → a.packet_state ≡ s
        → in_packet_state s (xs ++ ys) a ≡ then_assemble (in_packet_state s xs a) ys
    by_state initial e = inited-append xs ys _ refl
    by_state payload_inited e = inited-append xs ys a e
    by_state size_read e = size-append xs ys a e
    by_state type_read e = payload-append xs ys _ refl
    by_state payload_allocated e = payload-append xs ys a e
    by_state packet_assembled e = refl
