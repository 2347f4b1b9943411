-- ===== src/SshServer/Sftp/Worker/Tests.antt =====
-- The theorem about the worker at a host without files, whose calls all fail.
use genode_world.Prelude.{
  ℕ, ◌+◌, ◌≤◌, false, List, [], ◌∷◌, ◌++◌, none, some, ◌≡◌, refl, arith, length, map,
}
use genode_world.SshServer.Sftp.Host.{
  Host, Sftp, Message, opendir_of, read_of, unsupported, stat_of, lstat,
}
use genode_world.SshServer.Sftp.Files.Safe.{IsLawful, Safe}
use genode_world.SshServer.Sftp.Worker.{finished, worker_loop, all_opens, worker_loop-replies}

abbrev host : Host ℕ ℕ
host = record {
  errno = λ f. 2;
  path_max = 1024;
  realpath = λ path f. (some (b'/' ∷ []), f);
  get_stat = λ mode path f. (none, f);
  opendir = λ path f. (some 4, f);
  readdir = λ d f. (none, f);
  closedir = λ d f. (false, f);
  open_file = λ path flags mode f. (none, f);
  fdopen = λ fd mode f. (none, f);
  fseeko = λ file offset f. (false, f);
  fread = λ file len f. ([], f);
  feof = λ file f. false;
  fwrite = λ file bytes f. (0, f);
  fclose = λ file f. (false, f);
  unlink = λ path f. (false, f);
  mkdir = λ path mode f. (false, f);
  rmdir = λ path f. (false, f);
  format = λ letters st name. letters;
  handle_alloc = λ p t. none;
  find_handle = λ k t. none;
  handle_remove = λ p t. t;
}

abbrev entries : ℕ → ℕ → ℕ
entries d f = 0

lawful : IsLawful host entries
lawful = record {
  alloc_lem = λ p t t' key k e. cc;
  remove_lem = λ p t k. refl;
  readdir_lem = λ d f name e. cc;
  stat_lem = λ d path f mode. omega arith;
}

abbrev state : Sftp ℕ ℕ
state = record { fs = 0; table = 0; handles = []; next = 0; replies = [] }

state-Safe : Safe host state.table state.handles state.next
state-Safe = record { typed = tt; found = λ k p e. cc }

abbrev messages : List Message
messages = unsupported ∷ opendir_of (b'/' ∷ []) ∷ stat_of lstat [] ∷ read_of [] 0 1 ∷ []

worker_loop-replies_example :
    (s' : Sftp ℕ ℕ) × (worker_loop host 1 (map some messages ++ none ∷ some unsupported ∷ []) state
      ≡ finished (some unsupported ∷ []) s')
    × Safe host s'.table s'.handles s'.next
    × (length s'.replies ≤ 0 + 4)
    × (0 + 4 ≤ length s'.replies + all_opens messages)
worker_loop-replies_example =
    worker_loop-replies host entries lawful 1 messages (some unsupported ∷ []) state state-Safe
      (λ d f. omega arith) ((λ e. e), ((λ e. e), ((λ e. e), ((λ e. e), tt))))
