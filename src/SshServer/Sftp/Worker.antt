-- ===== src/SshServer/Sftp/Worker.antt =====
-- `sftp_worker_loop` of src/server/ssh_server/sftp.cc.
mod Tests
use genode_world.Prelude.{
  ℕ, suc, ◌+◌, ◌≤◌, ◌<◌, List, [], ◌∷◌, ◌++◌, Option, none, some, ◌≡◌, ◌⊎◌, inl, inr, refl, sym, ap,
  ◌∙◌, arith, length, map,
}
use genode_world.SshServer.Sftp.Host.{
  Host, Sftp, Outcome, done, crashed, unfinished, Message, realpath_of, stat_of, opendir_of,
  open_of, readdir_of, read_of, write_of, close_of, remove_of, mkdir_of, rmdir_of, unsupported,
}
use genode_world.SshServer.Sftp.Files.{process_message}
use genode_world.SshServer.Sftp.Files.Safe.{IsLawful}
use genode_world.SshServer.Sftp.Files.Answered.{SafeState}
use genode_world.SshServer.Sftp.Files.Closing.{Processed}
use genode_world.SshServer.Sftp.Files.Messages.{Silent, Loose, process_message-Processed}

-- The worker waits for a message, has finished with messages left in the queue, or is stopped in
-- a message.
pub data Worked (F T : Type 0) : Type 0 where
  waits : Sftp F T → Worked F T
  finished : List (Option Message) → Sftp F T → Worked F T
  stopped : Worked F T

module _ {F T : Type 0} (host : Host F T) where
  abbrev pub go_on : (Sftp F T → Worked F T) → Outcome F T → Worked F T
  go_on again (done s) = again s
  go_on again crashed = stopped
  go_on again unfinished = stopped

  -- The messages that are in the queue, none for the empty one.
  unfoldable pub worker_loop : ℕ → List (Option Message) → Sftp F T → Worked F T
  worker_loop fuel [] s = waits s
  worker_loop fuel (none ∷ requests) s = finished requests s
  worker_loop fuel (some m ∷ requests) s =
      go_on (worker_loop fuel requests) (process_message host fuel m s)

-- How many messages open something.
abbrev pub opens : Message → ℕ
opens (opendir_of path) = 1
opens (open_of path flags permissions) = 1
opens (realpath_of path) = 0
opens (stat_of mode path) = 0
opens (readdir_of key) = 0
opens (read_of key offset len) = 0
opens (write_of key offset bytes) = 0
opens (close_of string key) = 0
opens (remove_of path) = 0
opens (mkdir_of path flags permissions) = 0
opens (rmdir_of path) = 0
opens unsupported = 0

abbrev pub all_opens : List Message → ℕ
all_opens [] = 0
all_opens (m ∷ ms) = opens m + all_opens ms

module _ {F T : Type 0} (host : Host F T) (entries : ℕ → F → ℕ)
    (lawful : IsLawful host entries) where
  -- None of the messages closes a handle.
  abbrev pub NoneCloses : List Message → Type 0
  NoneCloses [] = Unit
  NoneCloses (m ∷ ms) = (¬ Loose host entries lawful m) × NoneCloses ms

  opens-Silent : (s : Sftp F T) (m : Message) → Silent host entries lawful s m → 1 ≤ opens m
  opens-Silent s (opendir_of path) e = omega arith
  opens-Silent s (open_of path flags permissions) e = omega arith
  opens-Silent s (realpath_of path) e = absurd e
  opens-Silent s (stat_of mode path) e = absurd e
  opens-Silent s (readdir_of key) e = absurd e
  opens-Silent s (read_of key offset len) e = absurd e
  opens-Silent s (write_of key offset bytes) e = absurd e
  opens-Silent s (close_of string key) e = absurd e
  opens-Silent s (remove_of path) e = absurd e
  opens-Silent s (mkdir_of path flags permissions) e = absurd e
  opens-Silent s (rmdir_of path) e = absurd e
  opens-Silent s unsupported e = absurd e

  -- What a message leaves, if it closes nothing.
  record Step (m : Message) (n : ℕ) (o : Outcome F T) : Type 0 where
    after : Sftp F T
    result : o ≡ done after
    safe : SafeState host entries lawful after
    at_most : length after.replies ≤ suc n
    at_least : suc n ≤ length after.replies + opens m

  step :
      (m : Message) (s : Sftp F T) (n : ℕ) (o : Outcome F T)
      → (¬ Loose host entries lawful m)
      → Processed host entries lawful
          (Loose host entries lawful m)
          (Silent host entries lawful s m)
          n
          o
      → Step m n o
  step m s n (done t) apart (inr l, r) = absurd (apart l)
  step m s n (done t) apart (inl v, inl r) = record {
    after = t;
    result = refl;
    safe = v;
    at_most = omega arith;
    at_least = omega arith;
  }
  step m s n (done t) apart (inl v, inr (e, r)) =
      let one = opens-Silent s m e in
      record { after = t; result = refl; safe = v; at_most = omega arith; at_least = omega arith }
  step m s n crashed apart p = absurd p
  step m s n unfinished apart p = absurd p

  -- From a state in which every handle has the directory or the file that its type says and the
  -- table of libssh finds existing handles only, the worker processes the messages before the
  -- first empty one, if none of them is a close, and finishes in such a state, with those behind
  -- it still in the queue. It sent at most one reply for each message, and one for each that does
  -- not open a handle. The fuel exceeds the entries of every directory in every state, and the
  -- table and the directories behave as `IsLawful` says.
  pub worker_loop-replies :
      (fuel : ℕ) (ms : List Message) (rest : List (Option Message)) (s : Sftp F T)
      → SafeState host entries lawful s
      → ((d : ℕ) (f : F) → entries d f < fuel)
      → NoneCloses ms
      → (s' : Sftp F T) × (worker_loop host fuel (map some ms ++ none ∷ rest) s ≡ finished rest s')
        × SafeState host entries lawful s'
        × (length s'.replies ≤ length s.replies + length ms)
        × (length s.replies + length ms ≤ length s'.replies + all_opens ms)
  unfolding worker_loop
  worker_loop-replies fuel [] rest s v b c = (s, refl, v, omega arith, omega arith)
  worker_loop-replies fuel (m ∷ ms) rest s v b (apart, c) =
      let t =
        step m s (length s.replies) (process_message host fuel m s) apart
          (process_message-Processed host entries lawful fuel m s v (λ d. b d s.fs)) in
      let (s', e, v', u, l) = worker_loop-replies fuel ms rest t.after t.safe b c in
      let w = t.at_most in
      let x = t.at_least in
      (
        s',
        ap (go_on host (worker_loop host fuel (map some ms ++ none ∷ rest))) t.result ∙ e,
        v',
        omega arith,
        omega arith,
      )
