-- ===== src/SshServer/Sftp/Files.antt =====
-- `process_message` of src/server/ssh_server/sftp.cc and the functions that it calls.
pub mod Safe
pub mod Answered
pub mod Listing
pub mod Closing
pub mod Messages
pub mod Confined
pub mod Beyond
pub mod Hidden
mod Tests
use genode_world.Prelude.{
  ℕ, zero, suc, ◌+◌, ◌/◌, ◌%◌, min, ltb, leb, ◌==◌, if◌then◌else◌, Bool, true, false, not, ◌&&◌,
  ◌||◌, List, [], ◌∷◌, ◌++◌, Option, none, some, length, take, list_eq, u32,
}
use genode_world.SshServer.Sftp.Host.{
  Host, Handle, hdir, hfile, HandleType, FileStat, FileType, regular, directory, symlink, special,
  unknown_type, Attributes, Access, rdonly, wronly, rdwr, OpenFlags, StatMode, stat, lstat, Status,
  fx_ok, fx_eof, fx_failure, fx_bad_message, fx_op_unsupported, fx_invalid_handle,
  fx_permission_denied, fx_no_such_path, Entry, Reply, reply_status, reply_name, reply_handle,
  reply_data, reply_attr, reply_names, Sftp, Outcome, done, crashed, unfinished, Message,
  realpath_of, stat_of, opendir_of, open_of, readdir_of, read_of, write_of, close_of, remove_of,
  mkdir_of, rmdir_of, unsupported, has_bit,
}
use genode_world.SshServer.Sftp.Values.{
  valid_path_prefix, root_path, before, before_last_slash, or_here, dir_of, valid_path,
  errno_status, file_type, attributes_of, letter, execute_letter, type_letter, permission_letters,
  access_of, open_flags, mode_of, plus_if, fd_mode,
}
use genode_world.SshServer.Sftp.Calls.{
  find, destroy, set_eof, reply, status, reply_errno, call, finish, resolved, validate,
  validate_dir, given_handle, new_handle, of_type, at_object, at_pointer, with_handle, through,
}

module _ {F T : Type 0} (host : Host F T) where
  abbrev pub opened_dir : List ℕ → Bool → Option ℕ → Sftp F T → Outcome F T
  opened_dir path root none s = reply_errno host s
  opened_dir path root (some d) s =
      new_handle host
        (record {
          address = 0;
          type = hdir;
          name = path;
          dir = some d;
          file = none;
          eof = false;
          root = root;
        })
        s

  abbrev pub process_opendir : List ℕ → Sftp F T → Outcome F T
  process_opendir path =
      validate host path (λ root buffer s. call host (host.opendir path) (opened_dir path root) s)

  abbrev pub opened_file : List ℕ → Option ℕ → Sftp F T → Outcome F T
  opened_file path none s = reply_errno host s
  opened_file path (some f) s =
      new_handle host
        (record {
          address = 0;
          type = hfile;
          name = path;
          dir = none;
          file = some f;
          eof = false;
          root = false;
        })
        s

  abbrev pub with_fd : List ℕ → ℕ → Option ℕ → Sftp F T → Outcome F T
  with_fd path flags none s = reply_errno host s
  with_fd path flags (some fd) s = call host (host.fdopen fd (fd_mode flags)) (opened_file path) s

  abbrev pub open_path : List ℕ → ℕ → ℕ → Sftp F T → Outcome F T
  open_path path flags permissions s =
      call host (host.open_file path (open_flags flags) (mode_of flags permissions))
        (with_fd path flags) s

  abbrev pub process_open : List ℕ → ℕ → ℕ → Sftp F T → Outcome F T
  process_open path flags permissions =
      validate_dir host path (λ root buffer s. open_path path flags permissions s)

  abbrev pub names_done : List Entry → Bool → Bool → Sftp F T → Outcome F T
  names_done names found eof s =
      if not found && eof then status host fx_eof s else done (reply host (reply_names names) s)

  abbrev pub entry_of : List ℕ → FileStat → Entry
  entry_of name st = record {
    name = name;
    longname = host.format (permission_letters st.mode) st name;
    attributes = attributes_of st;
  }

  -- What is done with an entry whose information was read: the loop goes on, with another count
  -- and more names, unless the entry is hidden.
  abbrev pub listed :
      (ℕ → List Entry → Sftp F T → Outcome F T)
      → ℕ
      → List Entry
      → Handle
      → List ℕ
      → Option FileStat
      → Sftp F T
      → Outcome F T
  listed again i names h name none s = reply_errno host s
  listed again i names h name (some st) s =
      if h.root && not (list_eq name (b's' ∷ b'f' ∷ b't' ∷ b'p' ∷ []))
      then again i names s
      else again (suc i) (names ++ entry_of name st ∷ []) s

  abbrev pub at_entry :
      (ℕ → List Entry → Sftp F T → Outcome F T)
      → ℕ
      → List Entry
      → Bool
      → Handle
      → Option (List ℕ)
      → Sftp F T
      → Outcome F T
  at_entry again i names found h none s =
      names_done names found true (record s { handles = set_eof h.address s.handles })
  at_entry again i names found h (some name) s =
      if leb host.path_max (length (h.name ++ b'/' ∷ name))
      then status host fx_failure s
      else call host (host.get_stat lstat (h.name ++ b'/' ∷ name)) (listed again i names h name) s

  unfoldable pub readdir_loop : ℕ → Handle → ℕ → Bool → ℕ → List Entry → Sftp F T → Outcome F T
  readdir_loop zero h d found i names s = unfinished
  readdir_loop (suc fuel) h d found i names s =
      if leb 10 i
      then names_done names found false s
      else call host (host.readdir d) (at_entry (readdir_loop fuel h d true) i names found h) s

  abbrev pub list_dir : ℕ → Handle → Sftp F T → Outcome F T
  list_dir fuel h s =
      if h.eof
      then names_done [] false true s
      else through host h.dir (λ d s'. readdir_loop fuel h d false 0 [] s') s

  abbrev pub process_readdir : ℕ → List ℕ → Sftp F T → Outcome F T
  process_readdir fuel key =
      with_handle host key
        (λ h s. of_type host h.type hdir (list_dir fuel h s) (status host fx_bad_message s))

  abbrev pub data_read : ℕ → List ℕ → Sftp F T → Outcome F T
  data_read f [] s = if host.feof f s.fs then status host fx_eof s else reply_errno host s
  data_read f (b ∷ bytes) s = done (reply host (reply_data (b ∷ bytes)) s)

  abbrev pub seeked : (Sftp F T → Outcome F T) → Bool → Sftp F T → Outcome F T
  seeked k ok s = if ok then k s else reply_errno host s

  abbrev pub read_file : ℕ → ℕ → ℕ → Sftp F T → Outcome F T
  read_file offset len f s =
      call host (host.fseeko f offset)
        (seeked
          (λ s'. call host (host.fread f (if ltb 65536 len then 65536 else len)) (data_read f) s'))
        s

  abbrev pub process_read : List ℕ → ℕ → ℕ → Sftp F T → Outcome F T
  process_read key offset len = with_handle host key (λ h s.
      of_type host h.type hfile (through host h.file (read_file offset len) s)
        (status host fx_bad_message s))

  abbrev pub write_file : ℕ → List ℕ → ℕ → Sftp F T → Outcome F T
  write_file offset bytes f s =
      call host (host.fseeko f offset)
        (seeked
          (λ s'. call host (host.fwrite f bytes) (λ n t. finish host (n == length bytes) t) s'))
        s

  abbrev pub process_write : List ℕ → ℕ → List ℕ → Sftp F T → Outcome F T
  process_write key offset bytes = with_handle host key (λ h s.
      of_type host h.type hfile (through host h.file (write_file offset bytes) s)
        (status host fx_bad_message s))

  -- `close_dir` and `close_file` give -1 for a null pointer.
  abbrev pub closed : (ℕ → F → Bool × F) → Option ℕ → Sftp F T → Outcome F T
  closed close none s = reply_errno host s
  closed close (some d) s = call host (close d) (finish host) s

  -- `sftp_handle_remove` is given `msg->handle`, the address `string`.
  abbrev pub close_handle : ℕ → Handle → Sftp F T → Outcome F T
  close_handle string h s =
      let s' : Sftp F T = record s {
        table = host.handle_remove string s.table;
        handles = destroy h.address s.handles;
      } in
      of_type host h.type hdir (closed host.closedir h.dir s') (closed host.fclose h.file s')

  abbrev pub process_close : ℕ → List ℕ → Sftp F T → Outcome F T
  process_close string key = with_handle host key (close_handle string)

  abbrev pub stat_known : Option FileStat → Sftp F T → Outcome F T
  stat_known none s = reply_errno host s
  stat_known (some st) s = done (reply host (reply_attr (attributes_of st)) s)

  abbrev pub process_stat : StatMode → List ℕ → Sftp F T → Outcome F T
  process_stat mode path =
      validate host path (λ root buffer s. call host (host.get_stat mode path) stat_known s)

  abbrev pub process_remove : List ℕ → Sftp F T → Outcome F T
  process_remove path =
      validate host path (λ root buffer s. call host (host.unlink path) (finish host) s)

  abbrev pub process_mkdir : List ℕ → ℕ → ℕ → Sftp F T → Outcome F T
  process_mkdir path flags permissions =
      validate_dir host path
        (λ root buffer s. call host (host.mkdir path (mode_of flags permissions)) (finish host) s)

  abbrev pub process_rmdir : List ℕ → Sftp F T → Outcome F T
  process_rmdir path =
      validate host path (λ root buffer s. call host (host.rmdir path) (finish host) s)

  abbrev pub process_realpath : List ℕ → Sftp F T → Outcome F T
  process_realpath path =
      validate host path (λ root buffer s. done (reply host (reply_name buffer) s))

  -- The fuel is for the entries of a directory.
  unfoldable pub process_message : ℕ → Message → Sftp F T → Outcome F T
  process_message fuel (realpath_of path) s = process_realpath path s
  process_message fuel (stat_of mode path) s = process_stat mode path s
  process_message fuel (opendir_of path) s = process_opendir path s
  process_message fuel (open_of path flags permissions) s = process_open path flags permissions s
  process_message fuel (readdir_of key) s = process_readdir fuel key s
  process_message fuel (read_of key offset len) s = process_read key offset len s
  process_message fuel (write_of key offset bytes) s = process_write key offset bytes s
  process_message fuel (close_of string key) s = process_close string key s
  process_message fuel (remove_of path) s = process_remove path s
  process_message fuel (mkdir_of path flags permissions) s = process_mkdir path flags permissions s
  process_message fuel (rmdir_of path) s = process_rmdir path s
  process_message fuel unsupported s = status host fx_op_unsupported s
