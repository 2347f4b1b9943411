-- ===== src/SshServer/Terminal/Stream.antt =====
-- The loop of the thread in src/server/ssh_server/server.cc and the client's writes: the channels of
-- a terminal get what the client has written, in order.
use genode_world.Prelude.{
  ℕ, suc, ◌<◌, ◌==◌, List, [], ◌∷◌, ◌++◌, map, Option, some, ◌≡◌, ◌≢◌, refl, sym, ap, ◌∙◌, arith,
  length, if-false, append-nil, ℕ_discrete,
}
use genode_world.SshServer.Buffer.{
  Buffer, IsValid, read_avail, text, text-reset, reset-IsValid, text_of_none, length-text,
}
use genode_world.SshServer.Terminal.{Terminal, Ssh, send_all, loop, reset_pending}
use genode_world.SshServer.Terminal.Broadcast.{
  IsReliable, AllOpen, Got, send_all-Broadcasts, send_all-Idle, send_all-swap,
}

-- The bytes that are still to be sent.
abbrev pub waiting : Terminal → List ℕ
waiting t = text t.write_buf_pthread ++ text t.write_buf_ep

-- The write buffers are valid, and the terminal has the channels of the list.
pub record Serves (C k : ℕ) (t : Terminal) : Type 0 where
  pub ep : IsValid C t.write_buf_ep
  pub pthread : IsValid C t.write_buf_pthread
  pub attached : t.attached_channels ≡ k

empty_text : (C : ℕ) (b : Buffer) → IsValid C b → text b ≡ [] → read_avail b ≡ 0
empty_text C b v h = sym (length-text C b v) ∙ ap length h

module _ (C : ℕ) {Channel : Type 0} (ssh : Ssh Channel) (received : Channel → List ℕ)
    (reliable : IsReliable ssh received) where
  -- One turn of the loop: the channels get `x`, and after two turns nothing is waiting.
  pub record Turn (send_to : List (Option Channel) × Terminal) (cs cs' : List Channel)
      (t t' : Terminal) (x : List ℕ) : Type 0 where
    pub result : send_to ≡ (map some cs', t')
    pub got : Got ssh received reliable x cs cs'
    pub stream : x ++ waiting t' ≡ waiting t
    pub serves : Serves C (length cs) t'
    pub emptied : text t'.write_buf_pthread ≡ []
    pub flushed : text t.write_buf_pthread ≡ [] → waiting t' ≡ []

  abbrev Turns : List Channel → Terminal → List (Option Channel) × Terminal → Type 0
  Turns cs t send_to =
      (cs' : List Channel) × (t' : Terminal) × (x : List ℕ) × Turn send_to cs cs' t t' x

  unchanged :
      (cs : List Channel) → AllOpen ssh received reliable cs → Got ssh received reliable [] cs cs
  unchanged cs o = record { bytes = same cs; still = o }
    where
      same : (ds : List Channel) → map received ds ≡ map (λ c. received c ++ []) ds
      same [] = refl
      same (d ∷ ds) =
          ap (λ r. r ∷ map received ds) (sym (append-nil (received d)))
          ∙ ap (λ r. (received d ++ []) ∷ r) (same ds)

  sends_pthread :
      (c : Channel) (cs : List Channel) (t : Terminal)
      → Serves C (suc (length cs)) t
      → AllOpen ssh received reliable (c ∷ cs)
      → t.pending_channels ≡ 0
      → suc (length cs) < 4294967296
      → read_avail t.write_buf_pthread ≢ 0
      → (cs' : List Channel) × (t' : Terminal) × (x : List ℕ) × Turn
          (send_all ssh (map some (c ∷ cs)) t)
          (c ∷ cs)
          cs'
          t
          t'
          x
        × (waiting t' ≡ text t.write_buf_ep)
  sends_pthread c cs t s o z small ne =
      let a = s.attached in
      let (cs', n, e, g) =
        send_all-Broadcasts ssh received reliable c cs t o ne (omega arith) (omega arith) in
      let r = text-reset t.write_buf_pthread in
      (
        cs',
        _,
        text t.write_buf_pthread,
        record {
          result = e;
          got = g;
          stream = ap (λ xs. text t.write_buf_pthread ++ (xs ++ text t.write_buf_ep)) r;
          serves = record {
            ep = s.ep;
            pthread = reset-IsValid C t.write_buf_pthread s.pthread;
            attached = a;
          };
          emptied = r;
          flushed = λ h. absurd (ne (empty_text C t.write_buf_pthread s.pthread h));
        },
        ap (λ xs. xs ++ text t.write_buf_ep) r,
      )

  sends_ep :
      (c : Channel) (cs : List Channel) (t : Terminal)
      → Serves C (suc (length cs)) t
      → AllOpen ssh received reliable (c ∷ cs)
      → t.pending_channels ≡ 0
      → suc (length cs) < 4294967296
      → read_avail t.write_buf_pthread ≡ 0
      → read_avail t.write_buf_ep ≢ 0
      → Turns (c ∷ cs) t (send_all ssh (map some (c ∷ cs)) t)
  sends_ep c cs t s o z small h ne =
      let t1 : Terminal = record t {
        write_buf_ep = t.write_buf_pthread;
        write_buf_pthread = t.write_buf_ep;
      } in
      let e0 = text_of_none t.write_buf_pthread h in
      let (cs', t', x, u, w) =
        sends_pthread c cs t1 (record { ep = s.pthread; pthread = s.ep; attached = s.attached }) o z
          small ne in
      (
        cs',
        t',
        x,
        record {
          result = send_all-swap ssh received reliable c cs t h ne ∙ u.result;
          got = u.got;
          stream =
              u.stream
              ∙ ap (λ xs. text t.write_buf_ep ++ xs) e0
              ∙ append-nil (text t.write_buf_ep)
              ∙ ap (λ xs. xs ++ text t.write_buf_ep) (sym e0);
          serves = u.serves;
          emptied = u.emptied;
          flushed = λ p. w ∙ p;
        },
      )

  sends_idle :
      (c : Channel) (cs : List Channel) (t : Terminal)
      → Serves C (suc (length cs)) t
      → AllOpen ssh received reliable (c ∷ cs)
      → read_avail t.write_buf_pthread ≡ 0
      → read_avail t.write_buf_ep ≡ 0
      → Turns (c ∷ cs) t (send_all ssh (map some (c ∷ cs)) t)
  sends_idle c cs t s o h h' =
      let (t', e, i) = send_all-Idle ssh received reliable C (c ∷ cs) t t (record {
        ep_valid = s.ep;
        pthread_valid = s.pthread;
        ep_empty = h';
        pthread_empty = h;
        attached = refl;
      }) in
      let p' = text_of_none t'.write_buf_pthread i.pthread_empty in
      let nothing : waiting t' ≡ [] =
        ap (λ xs. xs ++ text t'.write_buf_ep) p' ∙ text_of_none t'.write_buf_ep i.ep_empty in
      (
        c ∷ cs,
        t',
        [],
        record {
          result = e;
          got = unchanged (c ∷ cs) o;
          stream =
              nothing
              ∙ sym (text_of_none t.write_buf_ep h')
              ∙ ap (λ xs. xs ++ text t.write_buf_ep) (sym (text_of_none t.write_buf_pthread h));
          serves = record {
            ep = i.ep_valid;
            pthread = i.pthread_valid;
            attached = i.attached ∙ s.attached;
          };
          emptied = p';
          flushed = λ p. nothing;
        },
      )

  sends_any :
      (c : Channel) (cs : List Channel) (t : Terminal)
      → Serves C (suc (length cs)) t
      → AllOpen ssh received reliable (c ∷ cs)
      → t.pending_channels ≡ 0
      → suc (length cs) < 4294967296
      → Turns (c ∷ cs) t (send_all ssh (map some (c ∷ cs)) t)
  sends_any c cs t s o z small = elim (ℕ_discrete (read_avail t.write_buf_pthread) 0) [
    | no ne ↦ let (cs', t', x, u, w) = sends_pthread c cs t s o z small ne in (cs', t', x, u)
    | yes h ↦ elim (ℕ_discrete (read_avail t.write_buf_ep) 0) [
      | no ne ↦ sends_ep c cs t s o z small h ne
      | yes h' ↦ sends_idle c cs t s o h h'
    ]
  ]

  pub loop-Turn :
      (c : Channel) (cs : List Channel) (t : Terminal)
      → Serves C (suc (length cs)) t
      → AllOpen ssh received reliable (c ∷ cs)
      → suc (length cs) < 4294967296
      → Turns (c ∷ cs) t (loop ssh (map some (c ∷ cs)) t)
  unfolding loop
  loop-Turn c cs t s o small =
      let (cs', t', x, u) =
        sends_any c cs (reset_pending t)
          (record { ep = s.ep; pthread = s.pthread; attached = s.attached }) o refl small in
      (
        cs',
        t',
        x,
        record {
          result =
              ap (send_all ssh (map some (c ∷ cs)))
                (if-false (t.attached_channels == 0) _ _ (ground (arith, s.attached)))
              ∙ u.result;
          got = u.got;
          stream = u.stream;
          serves = u.serves;
          emptied = u.emptied;
          flushed = u.flushed;
        },
      )
