-- ===== src/SshServer/Sftp/Queue.antt =====
-- `enqueue_sftp_packet`, `send_queued_packets` and the states of src/server/ssh_server/sftp.cc.
pub mod Stream
mod Tests
use genode_world.Prelude.{
  ℕ, suc, ◌+◌, ◌-◌, ltb, if◌then◌else◌, Bool, true, false, List, [], ◌∷◌, ◌++◌, Option, none, some,
  length, drop,
}
use genode_world.SshServer.Sftp.Packets.{
  State, uninitialized, created, initialized, worker_closing, worker_finished, create_error, clean,
}

-- A channel of libssh: whether it is open, and `ssh_channel_write`, which gives the number of bytes
-- that it took, or none for an error.
pub record Channel (C : Type 0) : Type 0 where
  pub is_open : C → Bool
  pub write : List ℕ → C → Option ℕ × C

-- The replies that wait, the payload that is sent in part with the position in it, the state, the
-- end markers among the requests, and the signals that wake up the loop of the server or the worker.
pub record Output (C : Type 0) : Type 0 where
  pub pending_packets : List (List ℕ)
  pub output_payload : Option (List ℕ × ℕ)
  pub state : State
  pub end_markers : ℕ
  pub wake_ups : ℕ
  pub channel : C

module _ {C : Type 0} (ssh : Channel C) where
  abbrev pub signal_wake_up : Output C → Output C
  signal_wake_up s = record s { wake_ups = suc s.wake_ups }

  unfoldable pub enqueue_packet : List ℕ → Output C → Output C
  enqueue_packet payload s =
      signal_wake_up (record s { pending_packets = s.pending_packets ++ payload ∷ [] })

  abbrev pub end_of_communication : Output C → Output C
  end_of_communication s = record s { state = worker_closing; end_markers = suc s.end_markers }

  -- The end is simulated in two states.
  abbrev pub after_error : State → Output C → Output C
  after_error created s = end_of_communication s
  after_error initialized s = end_of_communication s
  after_error uninitialized s = s
  after_error worker_closing s = s
  after_error worker_finished s = s
  after_error create_error s = s
  after_error clean s = s

  abbrev pub after_write : (Output C → Output C) → List ℕ → ℕ → Option ℕ → Output C → Output C
  after_write again payload pos none s = after_error s.state s
  after_write again payload pos (some n) s =
      if ltb n (length payload - pos)
      then record s { output_payload = some (payload, pos + n) }
      else again s

  abbrev pub write_payload : (Output C → Output C) → List ℕ → ℕ → Output C → Output C
  write_payload again payload pos s =
      after_write again payload pos (ssh.write (drop pos payload) s.channel).0
        (record s { channel = (ssh.write (drop pos payload) s.channel).1 })

  -- The turns of the loop that take a packet out of the queue; the first of them signals.
  unfoldable pub send_pending : List (List ℕ) → Bool → Output C → Output C
  send_pending [] signal_sent s = s
  send_pending (p ∷ ps) signal_sent s = write_payload (send_pending ps true) p 0 (
      if signal_sent
      then record s { pending_packets = ps }
      else signal_wake_up (record s { pending_packets = ps }))

  -- The loop starts with the payload that was sent in part, if there is one.
  abbrev pub send_output : Option (List ℕ × ℕ) → Output C → Output C
  send_output none s = send_pending s.pending_packets false s
  send_output (some (payload, pos)) s =
      write_payload (send_pending s.pending_packets false) payload pos
        (record s { output_payload = none })

  unfoldable pub send_queued_packets : Output C → Output C
  send_queued_packets s = if ssh.is_open s.channel then send_output s.output_payload s else s
