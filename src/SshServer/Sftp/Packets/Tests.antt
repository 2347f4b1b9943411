-- ===== src/SshServer/Sftp/Packets/Tests.antt =====
-- The theorems about packets for SFTP at portions that cut through their sizes.
use genode_world.Prelude.{ℕ, ◌≡◌, refl, true, List, [], ◌∷◌, some, arith, inl}
use genode_world.SshServer.Sftp.Packets.{initial, Packet, Subsystem, Server, created, initialized}
use genode_world.SshServer.Sftp.Packets.Encode.{After}
use genode_world.SshServer.Sftp.Packets.Chunks.{
  receive_all, receive_all-encode_all, receive_all-bad_size,
}

-- A message is the type of its packet.
abbrev server : Server ℕ
server = record { init = λ p. true; client_message = λ p. some p.type }

abbrev fresh : Subsystem ℕ
fresh = record {
  has_server = true;
  assembler = record {
    packet_state = initial;
    size_buffer = [];
    packet_size_left = 0;
    packet = record { type = 0; payload = [] };
  };
  state = created;
  requests = [];
}

abbrev packets : List Packet
packets =
    record { type = 1; payload = 7 ∷ [] }
    ∷ record { type = 3; payload = [] }
    ∷ record { type = 4; payload = 5 ∷ 6 ∷ [] }
    ∷ []

abbrev portions : List (List ℕ)
portions =
    (0 ∷ 0 ∷ [])
    ∷ (0 ∷ 2 ∷ 1 ∷ [])
    ∷ []
    ∷ (7 ∷ 0 ∷ 0 ∷ 0 ∷ 1 ∷ 3 ∷ 0 ∷ [])
    ∷ (0 ∷ 0 ∷ 3 ∷ 4 ∷ 5 ∷ 6 ∷ [])
    ∷ []

receive_all-encode_all_example :
    (s : Subsystem ℕ) × (receive_all server portions fresh ≡ some s) × After server packets fresh s
receive_all-encode_all_example =
    receive_all-encode_all server portions packets fresh refl
      (omega arith, (omega arith, (omega arith, tt))) refl refl

receive_all-bad_size_at_sample :
    (s : Subsystem ℕ) × (receive_all server
        ((0 ∷ 0 ∷ 0 ∷ []) ∷ (0 ∷ 9 ∷ []) ∷ [])
        (record fresh { state = initialized })
      ≡ some s)
    × (s.requests ≡ [])
    × (s.state ≡ initialized)
receive_all-bad_size_at_sample =
    receive_all-bad_size server ((0 ∷ 0 ∷ 0 ∷ []) ∷ (0 ∷ 9 ∷ []) ∷ []) 0 (9 ∷ [])
      (record fresh { state = initialized }) refl (inl refl) refl refl
