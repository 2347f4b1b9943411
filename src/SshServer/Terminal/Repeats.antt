-- ===== src/SshServer/Terminal/Repeats.antt =====
-- The loop of src/server/ssh_server/server.cc where one of two channels of a terminal is closed.
use genode_world.Prelude.{
  ℕ, zero, suc, ◌+◌, ◌==◌, List, [], ◌∷◌, ◌++◌, Option, some, ◌≡◌, ◌≢◌, refl, sym, ap, ◌∙◌, arith,
  if-false, true, false, append-nil, append_assoc, u32,
}
use genode_world.SshServer.Buffer.{read_avail, text}
use genode_world.SshServer.Terminal.{
  Terminal, Ssh, sent, transmit, send_all, after_send, onto, loop, swap_buffers, reset_pending,
}
use genode_world.SshServer.Terminal.Broadcast.{IsReliable, swap_kept, transmit_open, counted_more}

unfoldable pub repeat : ℕ → List ℕ → List ℕ
repeat zero xs = []
repeat (suc n) xs = xs ++ repeat n xs

module _ {Channel : Type 0} (ssh : Ssh Channel) where
  unfoldable pub loops : ℕ → List (Option Channel) × Terminal → List (Option Channel) × Terminal
  loops zero s = s
  loops (suc n) (cs, t) = loops n (loop ssh cs t)

  transmit_closed :
      (c : Channel) (t : Terminal)
      → ssh.is_open c ≡ false
      → read_avail t.write_buf_pthread ≢ 0
      → transmit ssh (some c) t ≡ sent (some c) t
  unfolding transmit
  transmit_closed c t h ne =
      if-false (read_avail t.write_buf_pthread == 0) _ _ (ground (arith, ne))
      ∙ if-false (ssh.is_open c) _ _ h

module _ {Channel : Type 0} (ssh : Ssh Channel) (received : Channel → List ℕ)
    (reliable : IsReliable ssh received) where
  -- The terminal after a turn has the same buffers, and two channels.
  record Waits (t t' : Terminal) : Type 0 where
    pub pthread : t'.write_buf_pthread ≡ t.write_buf_pthread
    pub ep : t'.write_buf_ep ≡ t.write_buf_ep
    pub attached : t'.attached_channels ≡ 2

  loop_again :
      (shut c : Channel) (t : Terminal)
      → ssh.is_open shut ≡ false
      → ssh.is_open c ≡ true
      → t.attached_channels ≡ 2
      → read_avail t.write_buf_pthread ≢ 0
      → (c' : Channel) × (t' : Terminal) × (loop ssh (some shut ∷ some c ∷ []) t
          ≡ (some shut ∷ some c' ∷ [], t'))
        × (received c' ≡ received c ++ text t.write_buf_pthread)
        × (ssh.is_open c' ≡ true)
        × Waits t t'
  unfolding loop send_all
  loop_again shut c t hs ho two ne =
      let t0 : Terminal = reset_pending t in
      let (c', e, r, o) = transmit_open ssh received reliable c t0 ho ne in
      let t1 : Terminal = record t0 { pending_channels = u32 (0 + 1) } in
      let others : Terminal → List (Option Channel) × Terminal =
        λ s. after_send ssh (transmit ssh (some c) (swap_buffers s)) (λ s'. ([], s')) in
      (
        c',
        t1,
        ap (send_all ssh (some shut ∷ some c ∷ []))
              (if-false (t.attached_channels == 0) t t0 (ground (arith, two)))
            ∙ ap (λ s. after_send ssh (transmit ssh (some shut) s) others) (swap_kept t0 ne)
            ∙ ap (λ s. after_send ssh s others) (transmit_closed ssh shut t0 hs ne)
            ∙ ap
                (λ s.
                  onto ssh (some shut) (after_send ssh (transmit ssh (some c) s) (λ s'. ([], s'))))
                (swap_kept t0 ne)
            ∙ ap (λ s. onto ssh (some shut) (after_send ssh s (λ s'. ([], s')))) e
            ∙ ap (λ s. (some shut ∷ some c' ∷ [], s))
                (counted_more ssh received reliable t0 (omega arith)),
        r,
        o,
        record { pthread = refl; ep = refl; attached = two },
      )

  -- If a terminal has a text to send and two channels, the first of which is closed and the second
  -- open and reliable, every turn of the loop sends the same text to the second one once more, and
  -- the buffer that the client fills is left unsent.
  pub loops-repeat :
      (shut c : Channel) (t : Terminal)
      → ssh.is_open shut ≡ false
      → ssh.is_open c ≡ true
      → t.attached_channels ≡ 2
      → read_avail t.write_buf_pthread ≢ 0
      → (n : ℕ)
      → (c' : Channel) × (t' : Terminal) × (loops ssh n (some shut ∷ some c ∷ [], t)
          ≡ (some shut ∷ some c' ∷ [], t'))
        × (received c' ≡ received c ++ repeat n (text t.write_buf_pthread))
        × (t'.write_buf_ep ≡ t.write_buf_ep)
  unfolding loops repeat
  loops-repeat shut c t hs ho two ne zero = (c, t, refl, sym (append-nil (received c)), refl)
  loops-repeat shut c t hs ho two ne (suc n) =
      let (c1, t1, e, r, o, w) = loop_again shut c t hs ho two ne in
      let (c', t', e', r', p) =
        loops-repeat shut c1 t1 hs o w.attached (λ z. ne (sym (ap read_avail w.pthread) ∙ z)) n in
      (
        c',
        t',
        ap (loops ssh n) e ∙ e',
        r'
            ∙ ap (λ xs. received c1 ++ repeat n (text xs)) w.pthread
            ∙ ap (λ xs. xs ++ repeat n (text t.write_buf_pthread)) r
            ∙ append_assoc (received c) (text t.write_buf_pthread)
                (repeat n (text t.write_buf_pthread)),
        p ∙ w.ep,
      )
