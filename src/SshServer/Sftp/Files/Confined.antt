-- ===== src/SshServer/Sftp/Files/Confined.antt =====
-- Which paths of src/server/ssh_server/sftp.cc are let through.
use genode_world.Prelude.{
  ℕ, leb, ◌==◌, if◌then◌else◌, Bool, true, false, Bool-cases, List, ◌∷◌, Option, none, some, ◌≡◌,
  ◌⊎◌, inl, inr, refl, ap, ◌∙◌, length, if-true, if-false, subst,
}
use genode_world.SshServer.Sftp.Host.{
  Host, Status, reply_status, reply_name, Sftp, Outcome, done, Message, realpath_of, stat_of,
  opendir_of, open_of, readdir_of, read_of, write_of, close_of, remove_of, mkdir_of, rmdir_of,
  unsupported, fx_ok, fx_eof, fx_failure, fx_bad_message, fx_op_unsupported, fx_invalid_handle,
  fx_permission_denied, fx_no_such_path,
}
use genode_world.SshServer.Sftp.Calls
use genode_world.SshServer.Sftp.Files.{stat_known, opened_dir, open_path, process_message}
use genode_world.SshServer.Sftp.Calls.{finish, call, resolved, validate, validate_dir}
use genode_world.SshServer.Sftp.Values.{errno_status, mode_of, valid_path, dir_of}

-- The path that a message is judged by.
abbrev pub judged : Message → Option (List ℕ)
judged (realpath_of path) = some path
judged (stat_of mode path) = some path
judged (opendir_of path) = some path
judged (open_of path flags permissions) = some (dir_of path)
judged (readdir_of key) = none
judged (read_of key offset len) = none
judged (write_of key offset bytes) = none
judged (close_of string key) = none
judged (remove_of path) = some path
judged (mkdir_of path flags permissions) = some (dir_of path)
judged (rmdir_of path) = some path
judged unsupported = none

abbrev pub admitted : Option (List ℕ) → Bool
admitted none = false
admitted (some buffer) = valid_path buffer

-- The replies that refuse a message.
abbrev pub IsError : Status → Type 0
IsError fx_ok = ⊥
IsError fx_eof = ⊥
IsError fx_failure = Unit
IsError fx_bad_message = Unit
IsError fx_op_unsupported = Unit
IsError fx_invalid_handle = Unit
IsError fx_permission_denied = Unit
IsError fx_no_such_path = Unit

if_IsError : (b : Bool) (c d : Status) → IsError c → IsError d → IsError (if b then c else d)
if_IsError true c d x y = x
if_IsError false c d x y = y

errno_status-IsError : (e : ℕ) → IsError (errno_status e)
errno_status-IsError e =
    if_IsError (e == 13) _ _ tt
      (if_IsError (e == 1) _ _ tt (if_IsError (e == 2) _ _ tt (if_IsError (e == 20) _ _ tt tt)))

module _ {F T : Type 0} (host : Host F T) where
  -- An error is replied, and nothing was called but `realpath`, for the path, if at all.
  pub record Refused (path : List ℕ) (s : Sftp F T) (o : Outcome F T) : Type 0 where
    pub code : Status
    pub is_error : IsError code
    pub fs : F
    pub result : o ≡ done (record s { fs = fs; replies = reply_status code ∷ s.replies })
    pub untouched : (fs ≡ s.fs) ⊎ (fs ≡ (host.realpath path s.fs).1)

  validate-Refused :
      (path : List ℕ) (k : Bool → List ℕ → Sftp F T → Outcome F T) (s : Sftp F T)
      → admitted (host.realpath path s.fs).0 ≡ false
      → Refused path s (validate host path k s)
  unfolding validate
  validate-Refused path k s h = by_result (host.realpath path s.fs).0 h
    where
      by_result :
          (o : Option (List ℕ))
          → admitted o ≡ false
          → Refused path s (resolved host k o (record s { fs = (host.realpath path s.fs).1 }))
      by_result none h' = record {
        code = _;
        is_error = errno_status-IsError (host.errno (host.realpath path s.fs).1);
        fs = _;
        result = refl;
        untouched = inr refl;
      }
      by_result (some buffer) h' = record {
        code = fx_no_such_path;
        is_error = tt;
        fs = _;
        result = if-false (valid_path buffer) _ _ h';
        untouched = inr refl;
      }

  validate_dir-Refused :
      (path : List ℕ) (k : Bool → List ℕ → Sftp F T → Outcome F T) (s : Sftp F T)
      → admitted (host.realpath (dir_of path) s.fs).0 ≡ false
      → Refused (dir_of path) s (validate_dir host path k s)
  unfolding validate_dir
  validate_dir-Refused path k s h = elim (Bool-cases (leb host.path_max (length path))) [
    | inl e ↦ record {
      code = fx_no_such_path;
      is_error = tt;
      fs = s.fs;
      result = if-true (leb host.path_max (length path)) _ _ e;
      untouched = inl refl;
    }
    | inr e ↦
        let r = validate-Refused (dir_of path) k s h in
        record {
          code = r.code;
          is_error = r.is_error;
          fs = r.fs;
          result = if-false (leb host.path_max (length path)) _ _ e ∙ r.result;
          untouched = r.untouched;
        }
  ]

  path-Refused :
      (q path : List ℕ) (k : Bool → List ℕ → Sftp F T → Outcome F T) (s : Sftp F T)
      → q ≡ path
      → admitted (host.realpath path s.fs).0 ≡ false
      → Refused path s (validate host q k s)
  path-Refused q path k s e h =
      subst (λ x. Refused x s (validate host q k s)) e
        (validate-Refused q k s (ap (λ x. admitted (host.realpath x s.fs).0) e ∙ h))

  dir-Refused :
      (q path : List ℕ) (k : Bool → List ℕ → Sftp F T → Outcome F T) (s : Sftp F T)
      → dir_of q ≡ path
      → admitted (host.realpath path s.fs).0 ≡ false
      → Refused path s (validate_dir host q k s)
  dir-Refused q path k s e h =
      subst (λ x. Refused x s (validate_dir host q k s)) e
        (validate_dir-Refused q k s (ap (λ x. admitted (host.realpath x s.fs).0) e ∙ h))

  -- If the path that a message is judged by, which is that of the directory for open and mkdir,
  -- does not resolve, or resolves neither to "/" nor to a path that starts with "/sftp", the
  -- message is answered with a status that is an error, neither `SSH_FX_OK` nor `SSH_FX_EOF`, and
  -- nothing of the C library but `realpath`, for this path, was called.
  pub process_message-Refused :
      (fuel : ℕ) (m : Message) (path : List ℕ) (s : Sftp F T)
      → judged m ≡ some path
      → admitted (host.realpath path s.fs).0 ≡ false
      → Refused path s (process_message host fuel m s)
  unfolding process_message
  process_message-Refused fuel (realpath_of p) path s j h =
      path-Refused p path (λ root buffer t. done (Calls.reply host (reply_name buffer) t)) s (cc) h
  process_message-Refused fuel (stat_of mode p) path s j h =
      path-Refused p path (λ root buffer t. call host (host.get_stat mode p) (stat_known host) t) s
        (cc) h
  process_message-Refused fuel (opendir_of p) path s j h =
      path-Refused p path (λ root buffer t. call host (host.opendir p) (opened_dir host p root) t) s
        (cc) h
  process_message-Refused fuel (open_of p flags perms) path s j h =
      dir-Refused p path (λ root buffer t. open_path host p flags perms t) s (cc) h
  process_message-Refused fuel (readdir_of key) path s j h = cc
  process_message-Refused fuel (read_of key offset len) path s j h = cc
  process_message-Refused fuel (write_of key offset bytes) path s j h = cc
  process_message-Refused fuel (close_of string key) path s j h = cc
  process_message-Refused fuel (remove_of p) path s j h =
      path-Refused p path (λ root buffer t. call host (host.unlink p) (finish host) t) s (cc) h
  process_message-Refused fuel (mkdir_of p flags perms) path s j h =
      dir-Refused p path
        (λ root buffer t. call host (host.mkdir p (mode_of flags perms)) (finish host) t) s (cc) h
  process_message-Refused fuel (rmdir_of p) path s j h =
      path-Refused p path (λ root buffer t. call host (host.rmdir p) (finish host) t) s (cc) h
  process_message-Refused fuel unsupported path s j h = cc
