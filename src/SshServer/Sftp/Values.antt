-- ===== src/SshServer/Sftp/Values.antt =====
-- What src/server/ssh_server/sftp.cc makes of paths, modes, flags and the values of `errno`.
use genode_world.Prelude.{
  ℕ, ◌/◌, ◌%◌, ◌==◌, if◌then◌else◌, Bool, ◌&&◌, ◌||◌, List, [], ◌∷◌, Option, none, some, take,
  list_eq,
}
use genode_world.SshServer.Sftp.Host.{
  FileStat, FileType, regular, directory, symlink, special, unknown_type, Attributes, Access,
  rdonly, wronly, rdwr, OpenFlags, Status, fx_permission_denied, fx_no_such_path, fx_failure,
  has_bit,
}

-- "/sftp"
abbrev pub valid_path_prefix : List ℕ
valid_path_prefix = b'/' ∷ b's' ∷ b'f' ∷ b't' ∷ b'p' ∷ []

abbrev pub root_path : List ℕ
root_path = b'/' ∷ []

-- `strrchr` and what is done with the last slash: the text before it, if there is one.
abbrev pub before : ℕ → Option (List ℕ) → Option (List ℕ)
before c (some cs) = some (c ∷ cs)
before c none = if c == b'/' then some [] else none

abbrev pub before_last_slash : List ℕ → Option (List ℕ)
before_last_slash [] = none
before_last_slash (c ∷ cs) = before c (before_last_slash cs)

abbrev pub or_here : Option (List ℕ) → List ℕ
or_here none = b'.' ∷ []
or_here (some d) = d

abbrev pub dir_of : List ℕ → List ℕ
dir_of path = or_here (before_last_slash path)

abbrev pub valid_path : List ℕ → Bool
valid_path buffer = list_eq buffer root_path || list_eq (take 5 buffer) valid_path_prefix

-- `reply_errno_status`: EPERM, ENOENT, EACCES and ENOTDIR.
abbrev pub errno_status : ℕ → Status
errno_status e =
    if e == 13
    then fx_permission_denied
    else if e == 1
    then fx_permission_denied
    else if e == 2
    then fx_no_such_path
    else if e == 20
    then fx_no_such_path
    else fx_failure

-- `S_IFMT` and its values
abbrev pub file_type : ℕ → FileType
file_type mode =
    let t = mode / 4096 % 16 in
    if t == 8
    then regular
    else if t == 4
    then directory
    else if t == 10
    then symlink
    else if t == 12
    then special
    else if t == 6
    then special
    else if t == 2
    then special
    else if t == 1
    then special
    else unknown_type

abbrev pub attributes_of : FileStat → Attributes
attributes_of st = record {
  type = file_type st.mode;
  size = st.size;
  permissions = st.mode;
  atime = st.atime;
  mtime = st.mtime;
}

abbrev pub letter : ℕ → ℕ → ℕ → ℕ
letter mode bit c = if has_bit mode bit then c else b'-'

-- An `x` that may be an `s` or a `t`.
abbrev pub execute_letter : ℕ → ℕ → ℕ → ℕ → ℕ
execute_letter mode bit special_bit c =
    if has_bit mode bit then (if has_bit mode special_bit then c else b'x') else b'-'

abbrev pub type_letter : FileType → ℕ
type_letter directory = b'd'
type_letter symlink = b'l'
type_letter regular = b'-'
type_letter special = b'-'
type_letter unknown_type = b'-'

abbrev pub permission_letters : ℕ → List ℕ
permission_letters mode =
    type_letter (file_type mode)
    ∷ letter mode 256 b'r'
    ∷ letter mode 128 b'w'
    ∷ execute_letter mode 64 2048 b's'
    ∷ letter mode 32 b'r'
    ∷ letter mode 16 b'w'
    ∷ execute_letter mode 8 1024 b's'
    ∷ letter mode 4 b'r'
    ∷ letter mode 2 b'w'
    ∷ execute_letter mode 1 512 b't'
    ∷ []

-- The flags of SFTP: READ 1, WRITE 2, APPEND 4, CREAT 8, TRUNC 16, EXCL 32, ATTR_PERMISSIONS 4.
abbrev pub access_of : ℕ → Access
access_of flags =
    if has_bit flags 1 && has_bit flags 2
    then rdwr
    else if has_bit flags 1
    then rdonly
    else if has_bit flags 2
    then wronly
    else rdonly

abbrev pub open_flags : ℕ → OpenFlags
open_flags flags = record {
  access = access_of flags;
  append = has_bit flags 4;
  creat = has_bit flags 8;
  trunc = has_bit flags 16;
  excl = has_bit flags 32;
}

abbrev pub mode_of : ℕ → ℕ → ℕ
mode_of flags permissions = if has_bit flags 4 then permissions else 0

abbrev pub plus_if : Bool → ℕ → List ℕ
plus_if readwrite c = if readwrite then c ∷ b'+' ∷ [] else c ∷ []

abbrev pub fd_mode : ℕ → List ℕ
fd_mode flags = plus_if (has_bit flags 1 && has_bit flags 2) (
    if has_bit flags 8 && has_bit flags 4
    then b'a'
    else if has_bit flags 8 && has_bit flags 16
    then b'w'
    else b'r')
