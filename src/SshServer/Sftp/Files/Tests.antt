-- ===== src/SshServer/Sftp/Files/Tests.antt =====
-- The theorems about the files of SFTP at a host whose state is the number of entries left.
use genode_world.Prelude.{
  ℕ, zero, suc, ◌<◌, if◌then◌else◌, true, false, Bool-cases, List, [], ◌∷◌, ◌++◌, Option, none,
  some, ◌≡◌, refl, sym, ◌∙◌, ap, arith, list_eq, if-true, if-false, inl, inr, subst,
}
use genode_world.SshServer.Sftp.Host.{
  Host, Handle, hdir, FileStat, Sftp, done, readdir_of, opendir_of, remove_of, open_of, close_of,
}
use genode_world.SshServer.Sftp.Values.{valid_path_prefix}
use genode_world.SshServer.Sftp.Files.{opened_dir, open_path, process_message}
use genode_world.SshServer.Sftp.Calls.{call, find, finish}
use genode_world.SshServer.Sftp.Files.Safe.{IsLawful, Safe, unless}
use genode_world.SshServer.Sftp.Files.Closing.{Processed, Dangles, process_message-Dangles}
use genode_world.SshServer.Sftp.Files.Messages.{process_message-Processed}
use genode_world.SshServer.Sftp.Files.Confined.{Refused, process_message-Refused}
use genode_world.SshServer.Sftp.Files.Hidden.{Modest, Newest, process_message-Modest}
use genode_world.SshServer.Sftp.Files.Beyond.{
  in_root, process_message-in_root, process_message-valid_path_prefix,
}

-- The handles of libssh, by their keys.
abbrev Table : Type 0
Table = List ℕ → Option ℕ

abbrev file_stat : FileStat
file_stat = record { mode = 33188; size = 3; atime = 0; mtime = 0; nlink = 1; uid = 0; gid = 0 }

abbrev next_entry : ℕ → Option (List ℕ) × ℕ
next_entry zero = (none, zero)
next_entry (suc n) = (some (b'a' ∷ []), n)

abbrev host : Host ℕ Table
host = record {
  errno = λ f. 2;
  path_max = 1024;
  realpath = λ path f. (some (if list_eq path (b'/' ∷ b'.' ∷ []) then b'/' ∷ [] else path), f);
  get_stat = λ mode path f. (some file_stat, f);
  opendir = λ path f. (some 4, f);
  readdir = λ d f. next_entry f;
  closedir = λ d f. (true, f);
  open_file = λ path flags mode f. (some 5, f);
  fdopen = λ fd mode f. (some 6, f);
  fseeko = λ file offset f. (true, f);
  fread = λ file len f. ([], f);
  feof = λ file f. true;
  fwrite = λ file bytes f. (0, f);
  fclose = λ file f. (true, f);
  unlink = λ path f. (true, f);
  mkdir = λ path mode f. (true, f);
  rmdir = λ path f. (true, f);
  format = λ letters st name. letters ++ name;
  handle_alloc = λ p t. some (p ∷ [], λ k. if list_eq k (p ∷ []) then some p else t k);
  find_handle = λ k t. t k;
  handle_remove = λ p t k. unless p (t k);
}

abbrev entries : ℕ → ℕ → ℕ
entries d f = f

read_one : (f : ℕ) (name : List ℕ) → (next_entry f).0 ≡ some name → (next_entry f).1 < f
read_one zero name e = cc
read_one (suc n) name e = omega arith

abbrev AsGiven : ℕ → Table → List ℕ → Option (List ℕ × Table) → Type 0
AsGiven p t k none = Unit
AsGiven p t k (some (key, t')) = t' k ≡ (if list_eq k key then some p else t k)

allocated :
    (p : ℕ) (t t' : Table) (key k : List ℕ)
    → host.handle_alloc p t ≡ some (key, t')
    → t' k ≡ (if list_eq k key then some p else t k)
allocated p t t' key k e = subst (AsGiven p t k) e refl

lawful : IsLawful host entries
lawful = record {
  alloc_lem = allocated;
  remove_lem = λ p t k. refl;
  readdir_lem = λ d f name e. read_one f name e;
  stat_lem = λ d path f mode. omega arith;
}

-- An open directory with the handle 0.
abbrev directory_handle : Handle
directory_handle = record {
  address = 0;
  type = hdir;
  name = b'/' ∷ [];
  dir = some 4;
  file = none;
  eof = false;
  root = false;
}

abbrev state : Sftp ℕ Table
state = record {
  fs = 3;
  table = λ k. if list_eq k (0 ∷ []) then some 0 else none;
  handles = directory_handle ∷ [];
  next = 1;
  replies = [];
}

only_zero : (k : List ℕ) (p : ℕ) → (if list_eq k (0 ∷ []) then some 0 else none) ≡ some p → p ≡ 0
only_zero k p e = elim (Bool-cases (list_eq k (0 ∷ []))) [
  | inl t ↦ cc (sym (if-true (list_eq k (0 ∷ [])) (some 0) none t) ∙ e)
  | inr f ↦ cc (sym (if-false (list_eq k (0 ∷ [])) (some 0) none f) ∙ e)
]

state-Safe : Safe host state.table state.handles state.next
state-Safe = record {
  typed = ((4, refl), omega arith, tt);
  found = λ k p e. (directory_handle, ap (λ q. find q state.handles) (only_zero k p e));
}

process_message-Processed_example :
    Processed host entries lawful ⊥ ⊥ 0 (process_message host 5 (readdir_of (0 ∷ [])) state)
process_message-Processed_example =
    process_message-Processed host entries lawful 5 (readdir_of (0 ∷ [])) state state-Safe
      (λ d. omega arith)

process_message-Dangles_example :
    Dangles host entries lawful (0 ∷ []) (process_message host 5 (close_of 9 (0 ∷ [])) state)
unfolding list_eq
process_message-Dangles_example =
    process_message-Dangles host entries lawful 5 9 (0 ∷ []) 0 state state-Safe refl
      (λ e. absurd (omega (arith, e)))

process_message-Refused_example :
    Refused host
      (b'/' ∷ b'x' ∷ [])
      state
      (process_message host 5 (opendir_of (b'/' ∷ b'x' ∷ [])) state)
unfolding list_eq
process_message-Refused_example =
    process_message-Refused host 5 (opendir_of (b'/' ∷ b'x' ∷ [])) (b'/' ∷ b'x' ∷ []) state refl
      refl

process_message-in_root_example :
    process_message host 5 (open_of (in_root host (b'x' ∷ [])) 1 0) state
    ≡ open_path host (in_root host (b'x' ∷ [])) 1 0 state
unfolding list_eq
process_message-in_root_example =
    process_message-in_root host 5 (b'x' ∷ []) 1 0 state refl (omega arith) refl

-- "/sftp2"
abbrev sibling : List ℕ
sibling = valid_path_prefix ++ b'2' ∷ []

process_message-valid_path_prefix_at_sample :
    (process_message host 5 (opendir_of sibling) state
      ≡ call host (host.opendir sibling) (opened_dir host sibling false) state)
    × (process_message host 5 (remove_of sibling) state
        ≡ call host (host.unlink sibling) (finish host) state)
unfolding list_eq
process_message-valid_path_prefix_at_sample =
    process_message-valid_path_prefix host 5 sibling (b'2' ∷ []) state refl

-- The same handle, for the root.
abbrev root_handle : Handle
root_handle = record directory_handle { root = true }

abbrev root_state : Sftp ℕ Table
root_state = record state { handles = root_handle ∷ [] }

root_state-Safe : Safe host root_state.table root_state.handles root_state.next
root_state-Safe = record {
  typed = ((4, refl), omega arith, tt);
  found = λ k p e. (root_handle, ap (λ q. find q root_state.handles) (only_zero k p e));
}

process_message-Modest_example :
    (s' : Sftp ℕ Table) × (process_message host 5 (readdir_of (0 ∷ [])) root_state ≡ done s')
    × Newest Modest s'.replies
unfolding list_eq
process_message-Modest_example =
    process_message-Modest host entries lawful 5 (0 ∷ []) 0 root_handle root_state root_state-Safe
      (λ d. omega arith) refl refl refl refl
