-- ===== src/SshServer/Sftp/Queue/Tests.antt =====
-- The theorem about the queue of replies at a channel that takes two bytes at a time.
use genode_world.Prelude.{
  ℕ, min, true, List, [], ◌∷◌, ◌++◌, Option, none, some, length, take, ◌≡◌, refl, subst,
}
use genode_world.SshServer.Sftp.Packets.{initialized}
use genode_world.SshServer.Sftp.Queue.{Channel, Output, send_queued_packets}
use genode_world.SshServer.Sftp.Queue.Stream.{IsChannel, Sends, stream, send_queued_packets-Sends}

abbrev slow : Channel (List ℕ)
slow = record {
  is_open = λ c. true;
  write = λ bytes c. (some (min 2 (length bytes)), c ++ take (min 2 (length bytes)) bytes);
}

abbrev received : List ℕ → List ℕ
received c = c

abbrev Took : List ℕ → List ℕ → Option ℕ → Type 0
Took bytes c none = Unit
Took bytes c (some n) = c ++ take (min 2 (length bytes)) bytes ≡ c ++ take n bytes

lawful : IsChannel slow received
lawful = record {
  write_lem = λ bytes c n e. subst (Took bytes c) e refl;
  error_lem = λ bytes c e. cc;
}

abbrev output : Output (List ℕ)
output = record {
  pending_packets = (1 ∷ 2 ∷ []) ∷ (3 ∷ 4 ∷ 5 ∷ []) ∷ (6 ∷ []) ∷ [];
  output_payload = some (7 ∷ 8 ∷ 9 ∷ [], 1);
  state = initialized;
  end_markers = 0;
  wake_ups = 0;
  channel = 7 ∷ [];
}

send_queued_packets-Sends_example :
    Sends slow received lawful
      (stream slow received lawful output)
      initialized
      (send_queued_packets slow output)
send_queued_packets-Sends_example = send_queued_packets-Sends slow received lawful output
