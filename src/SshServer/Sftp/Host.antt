-- ===== src/SshServer/Sftp/Host.antt =====
-- What `Ssh::Sftp` of src/server/ssh_server/sftp.cc keeps of the files, and what it calls: the C
-- library, whose state with the file system is `F`, and the table of handles of libssh, `T`.
use genode_world.Prelude.{ℕ, ◌==◌, Bool, ◌/◌, ◌%◌, List, Option}

-- `struct stat`
pub record FileStat : Type 0 where
  pub mode : ℕ
  pub size : ℕ
  pub atime : ℕ
  pub mtime : ℕ
  pub nlink : ℕ
  pub uid : ℕ
  pub gid : ℕ

pub data FileType : Type 0 where
  regular directory symlink special unknown_type : FileType

-- `sftp_attributes` with the three flags that are set.
pub record Attributes : Type 0 where
  pub type : FileType
  pub size : ℕ
  pub permissions : ℕ
  pub atime : ℕ
  pub mtime : ℕ

pub data Access : Type 0 where
  rdonly wronly rdwr : Access

-- The arguments of `open`.
pub record OpenFlags : Type 0 where
  pub access : Access
  pub append : Bool
  pub creat : Bool
  pub trunc : Bool
  pub excl : Bool

pub data StatMode : Type 0 where
  stat lstat : StatMode

-- Each call may change the state. A call that fails gives none or false, and leaves an `errno`.
pub record Host (F T : Type 0) : Type 0 where
  pub errno : F → ℕ
  pub path_max : ℕ
  pub realpath : List ℕ → F → Option (List ℕ) × F
  pub get_stat : StatMode → List ℕ → F → Option FileStat × F
  pub opendir : List ℕ → F → Option ℕ × F
  pub readdir : ℕ → F → Option (List ℕ) × F
  pub closedir : ℕ → F → Bool × F
  pub open_file : List ℕ → OpenFlags → ℕ → F → Option ℕ × F
  pub fdopen : ℕ → List ℕ → F → Option ℕ × F
  pub fseeko : ℕ → ℕ → F → Bool × F
  pub fread : ℕ → ℕ → F → List ℕ × F
  pub feof : ℕ → F → Bool
  pub fwrite : ℕ → List ℕ → F → ℕ × F
  pub fclose : ℕ → F → Bool × F
  pub unlink : List ℕ → F → Bool × F
  pub mkdir : List ℕ → ℕ → F → Bool × F
  pub rmdir : List ℕ → F → Bool × F
  -- `snprintf` and `ctime_r`
  pub format : List ℕ → FileStat → List ℕ → List ℕ
  -- `sftp_handle_alloc`, `sftp_handle` and `sftp_handle_remove`, which takes a pointer
  pub handle_alloc : ℕ → T → Option (List ℕ × T)
  pub find_handle : List ℕ → T → Option ℕ
  pub handle_remove : ℕ → T → T

pub data HandleType : Type 0 where
  hdir hfile : HandleType

-- A `Handle` by its address.
pub record Handle : Type 0 where
  pub address : ℕ
  pub type : HandleType
  pub name : List ℕ
  pub dir : Option ℕ
  pub file : Option ℕ
  pub eof : Bool
  pub root : Bool

pub data Status : Type 0 where
  fx_ok fx_eof fx_failure fx_bad_message fx_op_unsupported fx_invalid_handle : Status
  fx_permission_denied fx_no_such_path : Status

-- An entry of a reply with names.
pub record Entry : Type 0 where
  pub name : List ℕ
  pub longname : List ℕ
  pub attributes : Attributes

pub data Reply : Type 0 where
  reply_status : Status → Reply
  reply_name : List ℕ → Reply
  reply_handle : List ℕ → Reply
  reply_data : List ℕ → Reply
  reply_attr : Attributes → Reply
  reply_names : List Entry → Reply

-- The replies stand with the newest first. `next` is the address of the next object.
pub record Sftp (F T : Type 0) : Type 0 where
  pub fs : F
  pub table : T
  pub handles : List Handle
  pub next : ℕ
  pub replies : List Reply

-- How a message is processed: with a new state, by an access through a pointer to nothing, or not
-- within the fuel.
pub data Outcome (F T : Type 0) : Type 0 where
  done : Sftp F T → Outcome F T
  crashed : Outcome F T
  unfinished : Outcome F T

-- A `sftp_client_message`; `close_of` has the address of the `ssh_string` with the handle, too.
pub data Message : Type 0 where
  realpath_of : List ℕ → Message
  stat_of : StatMode → List ℕ → Message
  opendir_of : List ℕ → Message
  open_of : List ℕ → ℕ → ℕ → Message
  readdir_of : List ℕ → Message
  read_of : List ℕ → ℕ → ℕ → Message
  write_of : List ℕ → ℕ → List ℕ → Message
  close_of : ℕ → List ℕ → Message
  remove_of : List ℕ → Message
  mkdir_of : List ℕ → ℕ → ℕ → Message
  rmdir_of : List ℕ → Message
  unsupported : Message

-- Bits of a number: `flags & bit`.
abbrev pub has_bit : ℕ → ℕ → Bool
has_bit flags bit = flags / bit % 2 == 1
