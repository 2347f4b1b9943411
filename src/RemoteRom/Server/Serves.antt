-- ===== src/RemoteRom/Server/Serves.antt =====
-- The invariant of the server while it serves one content, and that its operations keep it.
use genode_world.Prelude.{
  ℕ, suc, ◌+◌, ◌-◌, ◌*◌, ◌≤◌, ◌<◌, ◌^◌, ◌≡◌, refl, ap, ◌∙◌, ◌⊎◌, inl, inr, true, false, List, arith,
  length, Bool-cases, ltb,
}
use genode_world.RemoteRom.Transfer.{window_packets, AllOk}
use genode_world.RemoteRom.Window.{
  calculate_window_size, window_size_covers, window_size_pos, window_size_le,
}
use genode_world.RemoteRom.Server.{
  Server, Sender, content_size, send_window, restart_transmission, start_transmission,
  finish_transmission, continue_transmission, go_back, reset, advance, enter_window,
  transmission_complete,
}
use genode_world.RemoteRom.Server.Send.{Loaded, Loaded-flags, InWindow, send_packets-WindowSent}

pub record Idle (c : Sender) : Type 0 where
  pub data_size : c.data_size ≡ 0
  pub offset : c.offset ≡ 0
  pub packet_id : c.packet_id ≡ 0
  pub window_id : c.window_id ≡ 0
  pub timeout : c.scheduled ≡ false

-- Between two events the whole window is sent.
pub record Running (n : ℕ) (c : Sender) : Type 0 where
  pub data_size : c.data_size ≡ n
  pub start : c.offset ≡ c.window_id * 1215000
  pub inside : c.window_id * 1215000 < n
  pub len : c.window_length ≡ window_packets n c.window_id
  pub all_sent : c.packet_id ≡ c.window_length

-- The sender has not gone beyond the window `k`, and sends only packets of the content.
pub record Serves (content : List ℕ) (k : ℕ) (s : Server) : Type 0 where
  pub small : length content < 2 ^ 32
  pub nonempty : 0 < length content
  pub loaded : Loaded content s.forwarder
  pub calm : s.forwarder.update_received ≡ false
  pub frontend : s.sender.registered ≡ true
  pub state : Idle s.sender ⊎ Running (length content) s.sender
  pub behind : s.sender.window_id ≤ k
  pub sent : AllOk content k s.tx

-- As `Serves`, at a packet of the window that is still to be sent.
record Starts (content : List ℕ) (k : ℕ) (s : Server) : Type 0 where
  loaded : Loaded content s.forwarder
  calm : s.forwarder.update_received ≡ false
  frontend : s.sender.registered ≡ true
  within : InWindow (length content) s.sender
  behind : s.sender.window_id ≤ k
  sent : AllOk content k s.tx

send_window-Serves :
    (content : List ℕ) (k : ℕ) (s : Server) → Starts content k s → Serves content k (send_window s)
unfolding send_window
send_window-Serves content k s v =
    let fuel = suc (s.sender.window_length - s.sender.packet_id) in
    let w =
      send_packets-WindowSent content k fuel s v.loaded v.within v.behind (omega arith) v.sent in
    record {
      small = v.within.small;
      nonempty = omega (arith, v.within.inside);
      loaded = rw w.forwarder v.loaded;
      calm = rw w.forwarder v.calm;
      frontend = rw w.sender v.frontend;
      state = inr (
          rw w.sender (record {
            data_size = v.within.data_size;
            start = v.within.start;
            inside = v.within.inside;
            len = v.within.len;
            all_sent = refl;
          }));
      behind = rw w.sender v.behind;
      sent = w.tx;
    }

-- The state that `restart_transmission` sends from.
abbrev begun : Server → Server
begun s =
    let t = start_transmission s in
    record t {
      sender = record (reset s.sender) {
        data_size = content_size t.forwarder;
        window_length = calculate_window_size (content_size t.forwarder);
      };
    }

module _ (content : List ℕ) (k : ℕ) (s : Server) (v : Serves content k s) where
  begun-Starts : Starts content k (begun s)
  unfolding start_transmission
  begun-Starts =
      let l = Loaded-flags true s.forwarder.update_received v.loaded in
      record {
        loaded = l;
        calm = v.calm;
        frontend = v.frontend;
        within = record {
          small = v.small;
          data_size = l.size;
          start = refl;
          inside = v.nonempty;
          len = ap calculate_window_size (l.size ∙ omega arith);
          next_in = rw l.size (window_size_pos _ v.nonempty);
        };
        behind = omega arith;
        sent = v.sent;
      }

  pub restart-Serves : Serves content k (restart_transmission s)
  unfolding restart_transmission start_transmission
  restart-Serves = send_window-Serves content k (begun s) begun-Starts

  -- Within a window, from whatever packet the sender went back to.
  pub again-Serves :
      (i : ℕ)
      → Running (length content) s.sender
      → i < s.sender.window_length
      → Serves content k (send_window (record s { sender = go_back i s.sender }))
  again-Serves i r lt = send_window-Serves content k _ (record {
    loaded = v.loaded;
    calm = v.calm;
    frontend = v.frontend;
    within = record {
      small = v.small;
      data_size = r.data_size;
      start = r.start;
      inside = r.inside;
      len = r.len;
      next_in = lt;
    };
    behind = v.behind;
    sent = v.sent;
  })

  finished-Serves :
      Running (length content) s.sender
      → s.sender.scheduled ≡ false
      → transmission_complete (advance s.sender) ≡ true
      → Serves content k (continue_transmission s)
  unfolding continue_transmission finish_transmission
  finished-Serves r quiet e =
      let pos =
        window_size_pos (length content - s.sender.window_id * 1215000) (omega (arith, r.inside)) in
      let busy : ltb 0 s.sender.packet_id ≡ true = ground (arith, r.all_sent, r.len, pos) in
      rw (e, v.calm, busy)
        (record {
          small = v.small;
          nonempty = v.nonempty;
          loaded = Loaded-flags false false v.loaded;
          calm = refl;
          frontend = v.frontend;
          state = inl (record {
            data_size = refl;
            offset = refl;
            packet_id = refl;
            window_id = refl;
            timeout = quiet;
          });
          behind = omega arith;
          sent = v.sent;
        })

  -- A window that does not reach the end of the content is full.
  next-Starts :
      Running (length content) s.sender
      → (s.sender.window_length ≡ 900 → s.sender.window_id + 1 ≤ k)
      → transmission_complete (advance s.sender) ≡ false
      → Starts content k (record s { sender = enter_window (advance s.sender) })
  next-Starts r acked e = record {
    loaded = v.loaded;
    calm = v.calm;
    frontend = v.frontend;
    within = record {
      small = v.small;
      data_size = r.data_size;
      start = omega (arith, full);
      inside = omega (arith, full);
      len = ap calculate_window_size (omega (arith, full));
      next_in = window_size_pos _ (omega (arith, full));
    };
    behind = omega (arith, full);
    sent = v.sent;
  }
    where
      full :
          (s.sender.window_length ≡ 900) × (s.sender.window_id * 1215000 + 1215000 < length content)
      full = ground (
        arith,
        r.len,
        r.start,
        r.data_size,
        window_size_covers (length content - s.sender.window_id * 1215000),
        window_size_le (length content - s.sender.window_id * 1215000),
      )

  pub continue-Serves :
      Running (length content) s.sender
      → s.sender.scheduled ≡ false
      → (s.sender.window_length ≡ 900 → s.sender.window_id + 1 ≤ k)
      → Serves content k (continue_transmission s)
  continue-Serves r quiet acked = elim (Bool-cases (transmission_complete (advance s.sender))) [
    | inl e ↦ finished-Serves r quiet e
    | inr e ↦ next_window e
  ]
    where
      next_window :
          transmission_complete (advance s.sender) ≡ false
          → Serves content k (continue_transmission s)
      next_window e =
          unfold continue_transmission in
          rw e (send_window-Serves content k _ (next-Starts r acked e))
