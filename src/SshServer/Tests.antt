-- ===== src/SshServer/Tests.antt =====
-- The theorems about the terminals at a buffer of eight bytes and channels that are lists.
use genode_world.Prelude.{
  ℕ, ◌++◌, ◌≡◌, ◌↔◌, ◌≢◌, refl, sym, ◌∙◌, Bool, true, false, List, [], ◌∷◌, none, some, length, map,
  min, take, replicate, arith,
}
use genode_world.SshServer.Buffer.{
  Buffer, IsValid, read_avail, read_avail_lem, write_avail, text, append,
}
use genode_world.SshServer.Terminal.{
  Terminal, Ssh, channel_data, del_to_bs, write, write_loop, write_char, loop, send_all, transmit,
  swap_buffers, count_pending,
}
use genode_world.SshServer.Terminal.Write.{crlf, Wrote, Overruns, write-crlf, write-Overruns}
use genode_world.SshServer.Terminal.Read.{given, left, read-channel_data}
use genode_world.SshServer.Terminal.Broadcast.{IsReliable}
use genode_world.SshServer.Terminal.Stream.{waiting}
use genode_world.SshServer.Terminal.Delivery.{
  State, Action, client_writes, thread_loops, run, run-delivers,
}
use genode_world.SshServer.Terminal.Repeats.{loops, repeat, loops-repeat}

abbrev empty : Buffer
empty = record { data_ = replicate 8 0; head = 0; tail = 0 }

empty-IsValid : IsValid 8 empty
empty-IsValid = record { sized = refl; ordered = omega arith; bounded = omega arith }

abbrev terminal : Terminal
terminal = record {
  write_buf_ep = empty;
  write_buf_pthread = empty;
  read_buf = empty;
  size_changed_sigh = true;
  connected_sigh = true;
  read_avail_sigh = true;
  attached_channels = 2;
  pending_channels = 0;
  events = [];
}

-- A channel: whether it is open, and what it has received.
abbrev Channel : Type 0
Channel = Bool × List ℕ

abbrev ssh : Ssh Channel
ssh = record {
  is_open = λ (o, r). o;
  channel_write = λ (o, r) bs. ((o, r ++ bs), some (length bs));
}

abbrev received : Channel → List ℕ
received (o, r) = r

reliable : IsReliable ssh received
reliable = record { sends = λ (o, r) bs h. ((o, r ++ bs), refl, refl, h) }

-- "a\nb"
abbrev line : List ℕ
line = 97 ∷ 10 ∷ 98 ∷ []

wrote_line : (s : ℕ × Terminal) × (write 8 line terminal ≡ some s)
unfolding write write_loop write_char append write_avail
wrote_line = (_, refl)

write-crlf_example : (n : ℕ) × (b' : Buffer) × Wrote 8 line terminal n b'
write-crlf_example = write-crlf 8 line terminal empty-IsValid (λ h. cc (sym wrote_line.1 ∙ h))

write-Overruns_example :
    (write 8 (replicate 7 97 ++ 10 ∷ []) terminal ≡ none) ↔ Overruns 8 0 (replicate 7 97 ++ 10 ∷ [])
write-Overruns_example = write-Overruns 8 (replicate 7 97 ++ 10 ∷ []) terminal empty-IsValid

-- A newline that comes after seven bytes is written beyond the buffer.
newline_overruns : write 8 (replicate 7 97 ++ 10 ∷ []) terminal ≡ none
newline_overruns = write-Overruns_example.1 (7, refl, refl)

read-channel_data_example :
    (t' : Terminal) × (channel_data 8 (97 ∷ 127 ∷ []) terminal ≡ some (2, t'))
    × (given 1 t' ++ text (left 1 t') ≡ text empty ++ map del_to_bs (take 2 (97 ∷ 127 ∷ [])))
    × (length (given 1 t') ≡ min 1 (length (text t'.read_buf)))
    × IsValid 8 (left 1 t')
read-channel_data_example = read-channel_data 8 (97 ∷ 127 ∷ []) 1 terminal empty-IsValid

nothing_waits : waiting terminal ≡ []
unfolding text read_avail
nothing_waits = refl

abbrev channels : List Channel
channels = (true, []) ∷ (true, 1 ∷ []) ∷ []

abbrev actions : List Action
actions = client_writes line ∷ thread_loops ∷ client_writes (99 ∷ []) ∷ []

abbrev start : State Channel
start = record { accepted = []; channels = map some channels; terminal = terminal }

ran : (s : State Channel) × (run 8 ssh actions start ≡ some s)
unfolding run write write_loop write_char append write_avail loop send_all transmit read_avail
    swap_buffers count_pending
ran = (_, refl)

run-delivers_example :
    (s' : State Channel) × (cs' : List Channel) × (run 8 ssh
        (thread_loops ∷ thread_loops ∷ [])
        ran.0
      ≡ some s')
    × (s'.channels ≡ map some cs')
    × (map received cs' ≡ map (λ c. received c ++ crlf (ran.0).accepted) channels)
run-delivers_example =
    run-delivers 8 ssh received reliable channels terminal (omega arith, omega arith)
      (refl, (refl, tt)) (record { ep = empty-IsValid; pthread = empty-IsValid; attached = refl })
      nothing_waits actions ran.0 ran.1

-- "ab" waits, and the first of two channels is closed.
abbrev stuck : Terminal
stuck = record terminal {
  write_buf_pthread = record { data_ = 97 ∷ 98 ∷ replicate 6 0; head = 2; tail = 0 };
}

stuck_waits : read_avail stuck.write_buf_pthread ≢ 0
stuck_waits = λ h. omega (arith, read_avail_lem stuck.write_buf_pthread, h)

loops-repeat_at_sample :
    (c' : Channel) × (t' : Terminal) × (loops ssh 3 (some (false, []) ∷ some (true, []) ∷ [], stuck)
      ≡ (some (false, []) ∷ some c' ∷ [], t'))
    × (received c' ≡ [] ++ repeat 3 (text stuck.write_buf_pthread))
    × (t'.write_buf_ep ≡ empty)
loops-repeat_at_sample =
    loops-repeat ssh received reliable (false, []) (true, []) stuck refl refl refl stuck_waits 3

three_times : repeat 3 (text stuck.write_buf_pthread) ≡ 97 ∷ 98 ∷ 97 ∷ 98 ∷ 97 ∷ 98 ∷ []
unfolding repeat text read_avail
three_times = refl
