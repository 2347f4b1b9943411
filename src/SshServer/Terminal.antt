-- ===== src/SshServer/Terminal.antt =====
-- `Ssh::Terminal` of src/server/ssh_server/terminal.h, with what server.cc and ssh_callbacks.cc do
-- to it.
pub mod Write
pub mod Read
pub mod Broadcast
pub mod Stream
pub mod Delivery
pub mod Repeats
use genode_world.Prelude.{
  ℕ, ◌+◌, ◌-◌, suc, min, ltb, leb, ◌==◌, if◌then◌else◌, Bool, true, false, List, [], ◌∷◌, ◌++◌,
  Option, none, some, length, take, u32, not, ◌&&◌, arith,
}
use genode_world.SshServer.Buffer.{Buffer, append, consume, reset, text, read_avail, write_avail}

-- The signals to the client, and the byte that wakes the event loop up.
pub data Event : Type 0 where
  size_changed connected read_available woken : Event

-- The two write buffers stand in the roles that the pointers give them.
pub record Terminal : Type 0 where
  pub write_buf_ep : Buffer
  pub write_buf_pthread : Buffer
  pub read_buf : Buffer
  pub size_changed_sigh : Bool
  pub connected_sigh : Bool
  pub read_avail_sigh : Bool
  pub attached_channels : ℕ
  pub pending_channels : ℕ
  pub events : List Event

abbrev pub submit : Bool → Event → Terminal → Terminal
submit valid e t = if valid then record t { events = e ∷ t.events } else t

abbrev pub notify_connected : Terminal → Terminal
notify_connected t = submit t.connected_sigh connected t

abbrev pub notify_read_avail : Terminal → Terminal
notify_read_avail t = submit t.read_avail_sigh read_available t

abbrev pub notify_size_changed : Terminal → Terminal
notify_size_changed t = submit t.size_changed_sigh size_changed t

-- The counter is an `unsigned`.
abbrev pub attach_channel : Terminal → Terminal
attach_channel t = record t { attached_channels = u32 (t.attached_channels + 1) }

abbrev pub detach_channel : Terminal → Terminal
detach_channel t = record t { attached_channels = u32 (t.attached_channels + 4294967295) }

abbrev pub reset_pending : Terminal → Terminal
reset_pending t = record t { pending_channels = 0 }

abbrev pub register_connected : Bool → Terminal → Terminal
register_connected valid t =
    let t' = record t { connected_sigh = valid } in
    if ltb 0 t.attached_channels then notify_connected t' else t'

abbrev pub read_buffer_empty : Terminal → Bool
read_buffer_empty t = read_avail t.read_buf == 0

abbrev pub register_read_avail : Bool → Terminal → Terminal
register_read_avail valid t =
    let t' = record t { read_avail_sigh = valid } in
    submit (read_buffer_empty t && valid) read_available t'

-- The bytes that are copied, and the terminal after it.
unfoldable pub read : ℕ → Terminal → List ℕ × Terminal
read dst_len t =
    let b = consume (min dst_len (read_avail t.read_buf)) t.read_buf in
    (
      take (min dst_len (read_avail t.read_buf)) (text t.read_buf),
      (if read_avail b == 0
          then record t { read_buf = reset b }
          else notify_read_avail (record t { read_buf = b })),
    )

abbrev pub bind_buffer : {A : Type 0} → Option Buffer → (Buffer → Option A) → Option A
bind_buffer none f = none
bind_buffer (some b) f = f b

-- `channel_data_cb`: DEL becomes BS.
abbrev pub del_to_bs : ℕ → ℕ
del_to_bs c = if c == 127 then 8 else c

module _ (C : ℕ) where
  -- '\r' before '\n'
  unfoldable pub write_char : ℕ → Buffer → Option Buffer
  write_char c b = bind_buffer (if c == 10 then append C 13 b else some b) (append C c)

  unfoldable pub write_loop : List ℕ → ℕ → Buffer → Option (ℕ × Buffer)
  write_loop [] num_bytes b = some (num_bytes, b)
  write_loop (c ∷ src) num_bytes b =
      if ltb 0 (write_avail C b)
      then bind_buffer (write_char c b) (write_loop src (suc num_bytes))
      else some (num_bytes, b)

  abbrev pub written : Terminal → Option (ℕ × Buffer) → Option (ℕ × Terminal)
  written t none = none
  written t (some (num_bytes, b)) =
      some (num_bytes, record t { write_buf_ep = b; events = woken ∷ t.events })

  unfoldable pub write : List ℕ → Terminal → Option (ℕ × Terminal)
  write src t = written t (write_loop src 0 t.write_buf_ep)

  -- `channel_data_cb` for a session with a terminal
  unfoldable pub data_loop : List ℕ → ℕ → Buffer → Option (ℕ × Buffer)
  data_loop [] num_bytes b = some (num_bytes, b)
  data_loop (c ∷ src) num_bytes b =
      if ltb 0 (write_avail C b)
      then bind_buffer (append C (del_to_bs c) b) (data_loop src (suc num_bytes))
      else some (num_bytes, b)

  abbrev pub notified : Terminal → Option (ℕ × Buffer) → Option (ℕ × Terminal)
  notified t none = none
  notified t (some (num_bytes, b)) = some (num_bytes, notify_read_avail (record t { read_buf = b }))

  unfoldable pub channel_data : List ℕ → Terminal → Option (ℕ × Terminal)
  channel_data [] t = some (0, t)
  channel_data (c ∷ src) t = notified t (data_loop (c ∷ src) 0 t.read_buf)

-- libssh: whether a channel is open, and `ssh_channel_write`, whose error is none.
pub record Ssh (Channel : Type 0) : Type 0 where
  pub is_open : Channel → Bool
  pub channel_write : Channel → List ℕ → Channel × Option ℕ

-- How `send` ends, with the channel, if there is one.
pub data Sent (Channel : Type 0) : Type 0 where
  sent : Option Channel → Terminal → Sent Channel
  thrown : Terminal → Sent Channel

unfoldable pub swap_buffers : Terminal → Terminal
swap_buffers t =
    if read_avail t.write_buf_pthread == 0
    then record t { write_buf_ep = t.write_buf_pthread; write_buf_pthread = t.write_buf_ep }
    else t

unfoldable pub count_pending : Terminal → Terminal
count_pending t =
    let pending = u32 (t.pending_channels + 1) in
    if leb t.attached_channels pending
    then record t { pending_channels = pending; write_buf_pthread = reset t.write_buf_pthread }
    else record t { pending_channels = pending }

module _ {Channel : Type 0} (ssh : Ssh Channel) where
  abbrev pub concluded : Terminal → Channel × Option ℕ → Sent Channel
  concluded t (c, none) = thrown (count_pending t)
  concluded t (c, some num_bytes) = sent (some c) (count_pending t)

  unfoldable pub transmit : Option Channel → Terminal → Sent Channel
  transmit none t = sent none t
  transmit (some c) t =
      if read_avail t.write_buf_pthread == 0
      then sent (some c) t
      else if ssh.is_open c
      then concluded t (ssh.channel_write c (text t.write_buf_pthread))
      else sent (some c) t

  abbrev pub send : Option Channel → Terminal → Sent Channel
  send c t = transmit c (swap_buffers t)

  -- The sessions of the terminal, in the loop of the thread: a session whose `send` throws is
  -- cleaned up.
  abbrev pub onto :
      Option Channel → List (Option Channel) × Terminal → List (Option Channel) × Terminal
  onto c (cs, t) = (c ∷ cs, t)

  abbrev pub after_send :
      Sent Channel
      → (Terminal → List (Option Channel) × Terminal)
      → List (Option Channel) × Terminal
  after_send (sent c t) others = onto c (others t)
  after_send (thrown t) others = others (detach_channel t)

  unfoldable pub send_all : List (Option Channel) → Terminal → List (Option Channel) × Terminal
  send_all [] t = ([], t)
  send_all (c ∷ cs) t = after_send (send c t) (send_all cs)

  unfoldable pub loop : List (Option Channel) → Terminal → List (Option Channel) × Terminal
  loop cs t = send_all cs (if t.attached_channels == 0 then t else reset_pending t)
