-- ===== src/SshServer/Sftp/Packets/Payload.antt =====
-- The payload of a packet of src/server/ssh_server/sftp.cc that comes in two parts.
use genode_world.Prelude.{
  ℕ, ◌-◌, ◌≤◌, ◌<◌, min, ◌==◌, List, ◌++◌, length, take, drop, ◌≡◌, sym, ap, ◌∙◌, arith,
}
use genode_world.Prelude.{
  dec_le, if-true, if-false, length-append, append_assoc, take-length_le, take-append_le,
  drop-append_le, take-append_behind, drop-append_behind,
}
use genode_world.SshServer.Sftp.Packets.{
  payload_allocated, packet_assembled, Assembler, Assembly, taken, assembled, refused, add_payload,
  at_payload, in_packet_state, assemble,
}

-- What the rest of the data does after a first part.
abbrev pub then_assemble : Assembly → List ℕ → Assembly
then_assemble (taken a) ys = assemble ys a
then_assemble (assembled r a) ys = assembled (r ++ ys) a
then_assemble (refused a) ys = refused a

-- The two ways in which the payload is continued.
pub payload_done :
    (bytes : List ℕ) (a : Assembler)
    → a.packet_size_left ≤ length bytes
    → at_payload bytes a
      ≡ assembled
          (drop a.packet_size_left bytes)
          (record (add_payload a.packet_size_left bytes a) { packet_state = packet_assembled })
unfolding at_payload
payload_done bytes a h =
    let e : min a.packet_size_left (length bytes) ≡ a.packet_size_left = omega arith in
    rw e (if-true (a.packet_size_left - a.packet_size_left == 0) _ _ (ground arith))

pub payload_more :
    (bytes : List ℕ) (a : Assembler)
    → length bytes < a.packet_size_left
    → at_payload bytes a ≡ taken (add_payload (length bytes) bytes a)
unfolding at_payload
payload_more bytes a h =
    let e : min a.packet_size_left (length bytes) ≡ length bytes = omega arith in
    rw e (if-false (a.packet_size_left - length bytes == 0) _ _ (ground arith))

with_payload : ℕ → List ℕ → Assembler → Assembler
with_payload left payload a = record a {
  packet_size_left = left;
  packet = record (a.packet) { payload = payload };
}

finished : List ℕ → ℕ → List ℕ → Assembler → Assembly
finished rest left payload a =
    assembled rest (record (with_payload left payload a) { packet_state = packet_assembled })

payload-append_done :
    (xs ys : List ℕ) (a : Assembler)
    → a.packet_size_left ≤ length xs
    → at_payload (xs ++ ys) a ≡ then_assemble (at_payload xs a) ys
unfolding finished with_payload
payload-append_done xs ys a h =
    let n = a.packet_size_left in
    payload_done (xs ++ ys) a (omega (arith, length-append xs ys))
    ∙ ap (λ r. finished r (n - n) (a.packet.payload ++ take n (xs ++ ys)) a)
        (drop-append_le n xs ys h)
    ∙ ap (λ t. finished (drop n xs ++ ys) (n - n) (a.packet.payload ++ t) a)
        (take-append_le n xs ys h)
    ∙ ap (λ o. then_assemble o ys) (sym (payload_done xs a h))

payload-append_more :
    (xs ys : List ℕ) (a : Assembler)
    → length xs < a.packet_size_left
    → at_payload (xs ++ ys) a ≡ at_payload ys (add_payload (length xs) xs a)
unfolding finished with_payload
payload-append_more xs ys a h =
    let n = a.packet_size_left in
    let k = n - length xs in
    let a1 : Assembler = add_payload (length xs) xs a in
    let all = take-length_le (length xs) xs (omega arith) in
    let two : (m : ℕ) (t : List ℕ)
        → a.packet.payload ++ (xs ++ t) ≡ (a.packet.payload ++ take (length xs) xs) ++ t =
      λ m t.
        sym (append_assoc a.packet.payload xs t)
        ∙ ap (λ s. (a.packet.payload ++ s) ++ t) (sym all) in
    elim (dec_le k (length ys)) [
      | yes le ↦
          payload_done (xs ++ ys) a (omega (arith, length-append xs ys))
          ∙ ap (λ r. finished r (n - n) (a.packet.payload ++ take n (xs ++ ys)) a)
              (drop-append_behind k xs ys (omega arith))
          ∙ ap (λ m. finished (drop k ys) m (a.packet.payload ++ take n (xs ++ ys)) a)
              (let z : n - n ≡ k - k = omega arith in z)
          ∙ ap (λ t. finished (drop k ys) (k - k) t a)
              (ap (λ t. a.packet.payload ++ t) (take-append_behind k xs ys (omega arith))
                ∙ two 0 (take k ys))
          ∙ sym (payload_done ys a1 le)
      | no gt ↦
          payload_more (xs ++ ys) a (omega (arith, length-append xs ys))
          ∙ ap
              (λ m.
                taken (with_payload m (a.packet.payload ++ take (length (xs ++ ys)) (xs ++ ys)) a))
              (let z : n - length (xs ++ ys) ≡ k - length ys = omega (arith, length-append xs ys) in
                z)
          ∙ ap (λ t. taken (with_payload (k - length ys) t a))
              (ap (λ t. a.packet.payload ++ t)
                  (take-append_behind (length ys) xs ys (sym (length-append xs ys)))
                ∙ two 0 (take (length ys) ys))
          ∙ sym (payload_more ys a1 (omega arith))
    ]

pub payload-append :
    (xs ys : List ℕ) (a : Assembler)
    → a.packet_state ≡ payload_allocated
    → at_payload (xs ++ ys) a ≡ then_assemble (at_payload xs a) ys
unfolding assemble
payload-append xs ys a st = elim (dec_le a.packet_size_left (length xs)) [
  | yes le ↦ payload-append_done xs ys a le
  | no gt ↦
      let a1 : Assembler = add_payload (length xs) xs a in
      payload-append_more xs ys a (omega arith)
      ∙ ap (λ s. in_packet_state s ys a1) (sym st)
      ∙ ap (λ o. then_assemble o ys) (sym (payload_more xs a (omega arith)))
]
