-- ===== src/RemoteRom/Server/Receive.antt =====
-- The event handlers of the server keep its invariant: `receive` and the timeout.
use genode_world.Prelude.{
  ℕ, ◌+◌, ◌/◌, ◌≤◌, ◌≡◌, refl, ◌⊎◌, inl, inr, Bool, true, false, List, arith, length, Bool-cases,
  ◌∙◌, if-true, if-false, ltb, ◌==◌,
}
use genode_world.RemoteRom.Packet.{
  Packet, AckPacket, Body, signal, update, data_packet, ack_packet, unknown,
}
use genode_world.RemoteRom.Transfer.{packet_start}
use genode_world.RemoteRom.Server.{
  Server, transmit, timeout_handler, retry_or_cancel, receive_ack, receive_body, receive, go_back,
  is_transmitting, names_content, stop_timeout, transmission_complete, window_complete, reset,
  restart_transmission, continue_transmission, send_window, finish_transmission,
}
use genode_world.RemoteRom.Server.Serves.{
  Serves, Idle, Running, restart-Serves, again-Serves, continue-Serves,
}
use genode_world.RemoteRom.Server.Send.{Loaded-flags}

-- The branches of `transmit`.
module _ (s : Server) (frontend : s.sender.registered ≡ true) where
  transmit_restart :
      transmission_complete s.sender ≡ true
      → transmit true s ≡ restart_transmission (stop_timeout s)
  unfolding transmit
  transmit_restart e = if-true _ _ _ frontend ∙ if-true _ _ _ e

  transmit_refuse : transmission_complete s.sender ≡ false → transmit true s ≡ stop_timeout s
  unfolding transmit
  transmit_refuse e = if-true _ _ _ frontend ∙ if-false _ _ _ e

  transmit_continue :
      window_complete s.sender ≡ true → transmit false s ≡ continue_transmission (stop_timeout s)
  unfolding transmit
  transmit_continue e = if-true _ _ _ frontend ∙ if-true _ _ _ e

  transmit_again :
      window_complete s.sender ≡ false → transmit false s ≡ send_window (stop_timeout s)
  unfolding transmit
  transmit_again e = if-true _ _ _ frontend ∙ if-false _ _ _ e

abbrev flagged : Bool → ℕ → Server → Server
flagged b errors s = record s { sender = record s.sender { scheduled = b; errors = errors } }

module _ (content : List ℕ) (k : ℕ) (s : Server) (v : Serves content k s) where
  pub flagged-Serves : (errors : ℕ) → Serves content k (flagged false errors s)
  flagged-Serves errors = record {
    small = v.small;
    nonempty = v.nonempty;
    loaded = v.loaded;
    calm = v.calm;
    frontend = v.frontend;
    state = ground (arith, v.state);
    behind = v.behind;
    sent = v.sent;
  }

  pub errors-Serves :
      (errors : ℕ) → Serves content k (record s { sender = record s.sender { errors = errors } })
  errors-Serves errors = record {
    small = v.small;
    nonempty = v.nonempty;
    loaded = v.loaded;
    calm = v.calm;
    frontend = v.frontend;
    state = ground (arith, v.state);
    behind = v.behind;
    sent = v.sent;
  }

  -- An UPDATE starts the transmission, unless it is under way.
  pub transmit_true-Serves : Serves content k (transmit true s)
  transmit_true-Serves = elim (Bool-cases (transmission_complete s.sender)) [
    | inl e ↦
        rw (transmit_restart s v.frontend e)
          (restart-Serves content k (stop_timeout s) (flagged-Serves 0))
    | inr e ↦ rw (transmit_refuse s v.frontend e) (flagged-Serves 0)
  ]

  quiet-Running :
      (i : ℕ)
      → Running (length content) s.sender
      → i ≡ s.sender.window_length
      → Running (length content) (record s.sender { packet_id = i; scheduled = false; errors = 0 })
  quiet-Running i r e = record {
    data_size = r.data_size;
    start = r.start;
    inside = r.inside;
    len = r.len;
    all_sent = e;
  }

  at_end :
      (i : ℕ)
      → Running (length content) s.sender
      → i ≡ s.sender.window_length
      → Serves content k (stop_timeout (record s { sender = go_back i s.sender }))
  at_end i r e = record {
    small = v.small;
    nonempty = v.nonempty;
    loaded = v.loaded;
    calm = v.calm;
    frontend = v.frontend;
    state = inr (quiet-Running i r e);
    behind = v.behind;
    sent = v.sent;
  }

  -- The sender goes on to the next window, or sends the rest of this one again.
  pub transmit_false-Serves :
      (i : ℕ)
      → Running (length content) s.sender
      → i ≤ s.sender.window_length
      → (s.sender.window_length ≡ 900 → i ≡ 900 → s.sender.window_id + 1 ≤ k)
      → Serves content k (transmit false (record s { sender = go_back i s.sender }))
  transmit_false-Serves i r le acked = elim (Bool-cases (i == s.sender.window_length)) [
    | inl e ↦ rw (transmit_continue (record s { sender = go_back i s.sender }) v.frontend e) (
        continue-Serves content k (stop_timeout (record s { sender = go_back i s.sender }))
          (at_end i r (ground arith)) (quiet-Running i r (ground arith)) refl
          (λ full. acked full (ground arith)))
    | inr e ↦ rw (transmit_again (record s { sender = go_back i s.sender }) v.frontend e) (
        again-Serves content k (stop_timeout s) (flagged-Serves 0) i
          (quiet-Running s.sender.packet_id r r.all_sent) (ground arith))
  ]

  -- The second timeout in a row gives the transmission up.
  cancel-Serves :
      s.sender.scheduled ≡ false
      → Serves content k (finish_transmission (record s { sender = reset s.sender }))
  unfolding finish_transmission
  cancel-Serves quiet = rw v.calm (record {
    small = v.small;
    nonempty = v.nonempty;
    loaded = Loaded-flags false false v.loaded;
    calm = refl;
    frontend = v.frontend;
    state = inl (record {
      data_size = refl;
      offset = refl;
      packet_id = refl;
      window_id = refl;
      timeout = quiet;
    });
    behind = omega arith;
    sent = v.sent;
  })

  busy_runs : is_transmitting s.sender ≡ true → Running (length content) s.sender
  busy_runs busy = runs v.state
    where
      runs : Idle s.sender ⊎ Running (length content) s.sender → Running (length content) s.sender
      runs (inl i) = absurd (ground (arith, i.packet_id))
      runs (inr r) = r

  timed_runs : s.sender.scheduled ≡ true → Running (length content) s.sender
  timed_runs on = runs v.state
    where
      runs : Idle s.sender ⊎ Running (length content) s.sender → Running (length content) s.sender
      runs (inl i) = absurd (ground (arith, i.timeout))
      runs (inr r) = r

  pub ack-Serves :
      (a : AckPacket)
      → is_transmitting s.sender ≡ true
      → packet_start a.window_id a.ack_until / 1215000 ≤ k
      → Serves content k (receive_ack a s)
  unfolding receive_ack
  ack-Serves a busy seen = elim (Bool-cases (a.window_id == s.sender.window_id)) [
    | inr e ↦ rw e v
    | inl e ↦ elim (Bool-cases (ltb a.ack_until s.sender.packet_id)) [
      | inl back ↦
          rw (e, back)
            (transmit_false-Serves a.ack_until r (ground (arith, r.all_sent))
              (λ full end. ground (arith, r.all_sent)))
      | inr on ↦
          rw (e, on)
            (transmit_false-Serves s.sender.packet_id r (omega (arith, r.all_sent))
              (λ full end. ground (arith, r.all_sent)))
    ]
  ]
    where
      r : Running (length content) s.sender
      r = busy_runs busy

module _ (content : List ℕ) (k : ℕ) (s : Server) (v : Serves content k s) where
  retry-Serves :
      Running (length content) s.sender
      → s.sender.scheduled ≡ false
      → Serves content k (retry_or_cancel s)
  unfolding retry_or_cancel
  retry-Serves r quiet = elim (Bool-cases (s.sender.errors == 0)) [
    | inl e ↦
        rw e
          (transmit_false-Serves content k s v 0 r (omega arith) (λ full end. absurd (omega arith)))
    | inr e ↦ rw e (cancel-Serves content k s v quiet)
  ]

module _ (content : List ℕ) (k : ℕ) (s : Server) (v : Serves content k s) where
  -- A timeout that was scheduled keeps the invariant of the server, whether the window is sent
  -- again or the transmission is cancelled.
  pub timeout-Serves : s.sender.scheduled ≡ true → Serves content k (timeout_handler s)
  unfolding timeout_handler
  timeout-Serves on =
      let fired = flagged false s.sender.errors s in
      let r = timed_runs content k s v on in
      errors-Serves content k (retry_or_cancel fired)
        (retry-Serves content k fired (flagged-Serves content k s v s.sender.errors)
          (record {
            data_size = r.data_size;
            start = r.start;
            inside = r.inside;
            len = r.len;
            all_sent = r.all_sent;
          })
          refl)
        _

-- What the server asks of an acknowledgement.
abbrev pub Seen : ℕ → Body → Type 0
Seen k (ack_packet a) = packet_start a.window_id a.ack_until / 1215000 ≤ k
Seen k (signal n) = Unit
Seen k (update n) = Unit
Seen k (data_packet d) = Unit
Seen k (unknown n) = Unit

module _ (content : List ℕ) (k : ℕ) (s : Server) (v : Serves content k s) where
  receive_body-Serves : (b : Body) (p : Packet) → Seen k b → Serves content k (receive_body b p s)
  unfolding receive_body
  receive_body-Serves (signal n) p h = v
  receive_body-Serves (data_packet d) p h = v
  receive_body-Serves (unknown n) p h = v
  receive_body-Serves (update n) p h = elim (Bool-cases (names_content p s)) [
    | inl e ↦ rw e (transmit_true-Serves content k s v)
    | inr e ↦ rw e v
  ]
  receive_body-Serves (ack_packet a) p h = elim (Bool-cases (is_transmitting s.sender)) [
    | inr e ↦ rw e v
    | inl busy ↦ elim (Bool-cases (names_content p s)) [
      | inl e ↦ rw (busy, e) (ack-Serves content k s v a busy h)
      | inr e ↦ rw (busy, e) v
    ]
  ]

  -- Between two events the server is idle or has sent a whole window, and all it ever sent are
  -- packets of the content. Any packet keeps this, if an acknowledgement speaks of windows up to
  -- `k` only, and the server does not pass the window `k`.
  pub receive-Serves : (p : Packet) → Seen k p.body → Serves content k (receive p s)
  unfolding receive
  receive-Serves p h = receive_body-Serves p.body p h
