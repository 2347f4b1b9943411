-- ===== src/SshServer/Sftp/Files/Beyond.antt =====
-- Paths outside of /sftp that src/server/ssh_server/sftp.cc lets through.
use genode_world.Prelude.{
  ℕ, ◌<◌, leb, Bool, false, List, [], ◌∷◌, ◌++◌, none, some, ◌≡◌, ap, ◌∙◌, arith, length, if-false,
  list_eq,
}
use genode_world.SshServer.Sftp.Host.{Host, Sftp, opendir_of, open_of, remove_of}
use genode_world.SshServer.Sftp.Files.{opened_dir, open_path, process_message}
use genode_world.SshServer.Sftp.Calls.{call, resolved, validate, validate_dir, finish}
use genode_world.SshServer.Sftp.Values.{
  valid_path_prefix, root_path, dir_of, or_here, before, before_last_slash,
}

module _ {F T : Type 0} (host : Host F T) where
  -- The path of an entry of the root directory, as "/./name".
  abbrev pub in_root : List ℕ → List ℕ
  in_root name = b'/' ∷ b'.' ∷ b'/' ∷ name

  -- For a name without a slash that is not too long, the message to open "/./name" goes on to open
  -- this file, whatever it is, if "/." resolves to the root directory.
  pub process_message-in_root :
      (fuel : ℕ) (name : List ℕ) (flags permissions : ℕ) (s : Sftp F T)
      → before_last_slash name ≡ none
      → length (in_root name) < host.path_max
      → (host.realpath (b'/' ∷ b'.' ∷ []) s.fs).0 ≡ some root_path
      → process_message host fuel (open_of (in_root name) flags permissions) s
        ≡ open_path host
            (in_root name)
            flags
            permissions
            (record s { fs = (host.realpath (b'/' ∷ b'.' ∷ []) s.fs).1 })
  unfolding process_message validate_dir validate list_eq
  process_message-in_root fuel name flags permissions s no_slash short root =
      let k = λ (b : Bool) (buffer : List ℕ) (t : Sftp F T).
        open_path host (in_root name) flags permissions t in
      let directory : dir_of (in_root name) ≡ b'/' ∷ b'.' ∷ [] =
        ap (λ o. or_here (before b'/' (before b'.' (before b'/' o)))) no_slash in
      if-false (leb host.path_max (length (in_root name))) _ _ (ground arith)
      ∙ ap (λ d. validate host d k s) directory
      ∙ ap (λ o. resolved host k o (record s { fs = (host.realpath (b'/' ∷ b'.' ∷ []) s.fs).1 }))
          root

  -- A path that starts with the bytes of "/sftp" is opened as a directory or removed, whatever the
  -- rest of the name of its first directory is.
  pub process_message-valid_path_prefix :
      (fuel : ℕ) (path rest : List ℕ) (s : Sftp F T)
      → (host.realpath path s.fs).0 ≡ some (valid_path_prefix ++ rest)
      → (process_message host fuel (opendir_of path) s
          ≡ call host
              (host.opendir path)
              (opened_dir host path false)
              (record s { fs = (host.realpath path s.fs).1 }))
        × (process_message host fuel (remove_of path) s
            ≡ call host
                (host.unlink path)
                (finish host)
                (record s { fs = (host.realpath path s.fs).1 }))
  unfolding process_message validate list_eq
  process_message-valid_path_prefix fuel path rest s real = (
    ap
        (λ o.
          resolved host
            (λ root buffer t. call host (host.opendir path) (opened_dir host path root) t) o
            (record s { fs = (host.realpath path s.fs).1 }))
        real,
    ap
        (λ o.
          resolved host (λ root buffer t. call host (host.unlink path) (finish host) t) o
            (record s { fs = (host.realpath path s.fs).1 }))
        real,
  )
