-- ===== src/SshServer/Terminal/Broadcast.antt =====
-- `send` of src/server/ssh_server/terminal.h in the loop of the thread: every channel of a terminal
-- gets the text once.
use genode_world.Prelude.{
  ℕ, suc, ◌+◌, ◌≤◌, ◌<◌, ◌==◌, leb, true, List, [], ◌∷◌, ◌++◌, map, some, ◌≡◌, ◌≢◌, refl, sym, ap,
  ◌∙◌, arith,
}
use genode_world.Prelude.{length, if-true, if-false, u32}
use genode_world.SshServer.Buffer.{IsValid, read_avail, reset, text}
use genode_world.SshServer.Terminal.{
  Terminal, Ssh, sent, concluded, transmit, send_all, swap_buffers, count_pending, after_send, onto,
}

-- A channel that is open takes every byte, and stays open: `ssh_channel_write` of libssh where it
-- returns the number of bytes that it was given.
pub record IsReliable {Channel : Type 0} (ssh : Ssh Channel) (received : Channel → List ℕ)
    : Type 0 where
  pub sends :
      (c : Channel) (bs : List ℕ)
      → ssh.is_open c ≡ true
      → (c' : Channel) × (ssh.channel_write c bs ≡ (c', some (length bs)))
        × (received c' ≡ received c ++ bs)
        × (ssh.is_open c' ≡ true)

pub swap_kept : (t : Terminal) → read_avail t.write_buf_pthread ≢ 0 → swap_buffers t ≡ t
unfolding swap_buffers
swap_kept t h = if-false (read_avail t.write_buf_pthread == 0) _ _ (ground (arith, h))

swapped :
    (t : Terminal)
    → read_avail t.write_buf_pthread ≡ 0
    → swap_buffers t
      ≡ record t { write_buf_ep = t.write_buf_pthread; write_buf_pthread = t.write_buf_ep }
unfolding swap_buffers
swapped t h = if-true (read_avail t.write_buf_pthread == 0) _ _ (ground (arith, h))

module _ {Channel : Type 0} (ssh : Ssh Channel) (received : Channel → List ℕ)
    (reliable : IsReliable ssh received) where
  abbrev pub AllOpen : List Channel → Type 0
  AllOpen [] = Unit
  AllOpen (c ∷ cs) = (ssh.is_open c ≡ true) × AllOpen cs

  -- The channels of a list got `bs`, and are still open.
  pub record Got (bs : List ℕ) (cs cs' : List Channel) : Type 0 where
    pub bytes : map received cs' ≡ map (λ c. received c ++ bs) cs
    pub still : AllOpen cs'

  pub transmit_open :
      (c : Channel) (t : Terminal)
      → ssh.is_open c ≡ true
      → read_avail t.write_buf_pthread ≢ 0
      → (c' : Channel) × (transmit ssh (some c) t ≡ sent (some c') (count_pending t))
        × (received c' ≡ received c ++ text t.write_buf_pthread)
        × (ssh.is_open c' ≡ true)
  unfolding transmit
  transmit_open c t h ne =
      let (c', e, r, o) = reliable.sends c (text t.write_buf_pthread) h in
      (
        c',
        if-false (read_avail t.write_buf_pthread == 0) _ _ (ground (arith, ne))
            ∙ if-true (ssh.is_open c) _ _ h
            ∙ ap (concluded ssh t) e,
        r,
        o,
      )

  transmit_nothing :
      (c : Channel) (t : Terminal)
      → read_avail t.write_buf_pthread ≡ 0
      → transmit ssh (some c) t ≡ sent (some c) t
  unfolding transmit
  transmit_nothing c t h = if-true (read_avail t.write_buf_pthread == 0) _ _ (ground (arith, h))

  counted_last :
      (t : Terminal)
      → t.attached_channels ≤ u32 (t.pending_channels + 1)
      → count_pending t ≡ record t {
        pending_channels = u32 (t.pending_channels + 1);
        write_buf_pthread = reset t.write_buf_pthread;
      }
  unfolding count_pending
  counted_last t h =
      if-true (leb t.attached_channels (u32 (t.pending_channels + 1))) _ _ (ground arith)

  pub counted_more :
      (t : Terminal)
      → u32 (t.pending_channels + 1) < t.attached_channels
      → count_pending t ≡ record t { pending_channels = u32 (t.pending_channels + 1) }
  unfolding count_pending
  counted_more t h =
      if-false (leb t.attached_channels (u32 (t.pending_channels + 1))) _ _ (ground arith)

  -- The text is sent to the channels that are left, and the last one resets the buffer.
  abbrev pub Broadcasts : List Channel → Terminal → Type 0
  Broadcasts cs t =
      (cs' : List Channel) × (n : ℕ) × (send_all ssh (map some cs) t ≡ (
        map some cs',
        record t { pending_channels = n; write_buf_pthread = reset t.write_buf_pthread },
      ))
      × Got (text t.write_buf_pthread) cs cs'

  send_one :
      (c : Channel) (cs : List Channel) (t : Terminal)
      → ssh.is_open c ≡ true
      → read_avail t.write_buf_pthread ≢ 0
      → (c' : Channel) × (send_all ssh (map some (c ∷ cs)) t
          ≡ onto ssh (some c') (send_all ssh (map some cs) (count_pending t)))
        × (received c' ≡ received c ++ text t.write_buf_pthread)
        × (ssh.is_open c' ≡ true)
  unfolding send_all
  send_one c cs t o ne =
      let (c', e, r, o') = transmit_open c t o ne in
      (
        c',
        ap (λ s. after_send ssh (transmit ssh (some c) s) (send_all ssh (map some cs)))
              (swap_kept t ne)
            ∙ ap (λ s. after_send ssh s (send_all ssh (map some cs))) e,
        r,
        o',
      )

  pub send_all-Broadcasts :
      (c : Channel) (cs : List Channel) (t : Terminal)
      → AllOpen (c ∷ cs)
      → read_avail t.write_buf_pthread ≢ 0
      → t.pending_channels + suc (length cs) ≡ t.attached_channels
      → t.attached_channels < 4294967296
      → Broadcasts (c ∷ cs) t
  unfolding send_all
  send_all-Broadcasts c [] t (o, os) ne count small =
      let (c', e, r, o') = send_one c [] t o ne in
      (
        c' ∷ [],
        u32 (t.pending_channels + 1),
        e ∙ ap (λ s. (some c' ∷ [], s)) (counted_last t (omega arith)),
        record { bytes = ap (λ x. x ∷ []) r; still = (o', tt) },
      )
  send_all-Broadcasts c (d ∷ cs) t (o, os) ne count small =
      let (c', e, r, o') = send_one c (d ∷ cs) t o ne in
      let n = u32 (t.pending_channels + 1) in
      let (cs', m, e', g) =
        send_all-Broadcasts d cs (record t { pending_channels = n }) os ne (omega arith) small in
      (
        c' ∷ cs',
        m,
        e
            ∙ ap (λ s. onto ssh (some c') (send_all ssh (map some (d ∷ cs)) s))
                (counted_more t (omega arith))
            ∙ ap (onto ssh (some c')) e',
        record { bytes = cons_eq r g.bytes; still = (o', g.still) },
      )
    where
      cons_eq : {A : Type 0} {x y : A} {xs ys : List A} → x ≡ y → xs ≡ ys → (x ∷ xs) ≡ (y ∷ ys)
      cons_eq p q = cc

  -- Without text, nothing happens but that the buffers change their roles.
  pub record Idle (C : ℕ) (t t' : Terminal) : Type 0 where
    pub ep_valid : IsValid C t'.write_buf_ep
    pub pthread_valid : IsValid C t'.write_buf_pthread
    pub ep_empty : read_avail t'.write_buf_ep ≡ 0
    pub pthread_empty : read_avail t'.write_buf_pthread ≡ 0
    pub attached : t'.attached_channels ≡ t.attached_channels

  pub send_all-Idle :
      (C : ℕ) (cs : List Channel) (s t : Terminal)
      → Idle C s t
      → (t' : Terminal) × (send_all ssh (map some cs) t ≡ (map some cs, t')) × Idle C s t'
  unfolding send_all
  send_all-Idle C [] s t i = (t, refl, i)
  send_all-Idle C (c ∷ cs) s t i =
      let t1 : Terminal = record t {
        write_buf_ep = t.write_buf_pthread;
        write_buf_pthread = t.write_buf_ep;
      } in
      let (t', e, i') = send_all-Idle C cs s t1 (record {
        ep_valid = i.pthread_valid;
        pthread_valid = i.ep_valid;
        ep_empty = i.pthread_empty;
        pthread_empty = i.ep_empty;
        attached = i.attached;
      }) in
      (
        t',
        ap (λ r. after_send ssh (transmit ssh (some c) r) (send_all ssh (map some cs)))
              (swapped t i.pthread_empty)
            ∙ ap (λ r. after_send ssh r (send_all ssh (map some cs)))
                (transmit_nothing c t1 i.ep_empty)
            ∙ ap (onto ssh (some c)) e,
        i',
      )

  -- The first `send` exchanges the buffers.
  pub send_all-swap :
      (c : Channel) (cs : List Channel) (t : Terminal)
      → read_avail t.write_buf_pthread ≡ 0
      → read_avail t.write_buf_ep ≢ 0
      → send_all ssh (map some (c ∷ cs)) t
        ≡ send_all ssh
            (map some (c ∷ cs))
            (record t { write_buf_ep = t.write_buf_pthread; write_buf_pthread = t.write_buf_ep })
  unfolding send_all
  send_all-swap c cs t h ne =
      let t1 : Terminal = record t {
        write_buf_ep = t.write_buf_pthread;
        write_buf_pthread = t.write_buf_ep;
      } in
      ap (λ r. after_send ssh (transmit ssh (some c) r) (send_all ssh (map some cs)))
        (swapped t h ∙ sym (swap_kept t1 ne))
