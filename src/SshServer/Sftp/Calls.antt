-- ===== src/SshServer/Sftp/Calls.antt =====
-- What the functions for the messages of src/server/ssh_server/sftp.cc share: the paths, the handles
-- and the replies.
use genode_world.Prelude.{
  ℕ, suc, leb, ◌==◌, if◌then◌else◌, Bool, true, List, [], ◌∷◌, Option, none, some, length, list_eq,
}
use genode_world.SshServer.Sftp.Host.{
  Host, Handle, hdir, hfile, HandleType, Status, fx_ok, fx_invalid_handle, fx_no_such_path, Reply,
  reply_status, reply_handle, Sftp, Outcome, done, crashed,
}
use genode_world.SshServer.Sftp.Values.{root_path, dir_of, valid_path, errno_status}

abbrev pub find : ℕ → List Handle → Option Handle
find p [] = none
find p (h ∷ hs) = if h.address == p then some h else find p hs

abbrev pub destroy : ℕ → List Handle → List Handle
destroy p [] = []
destroy p (h ∷ hs) = if h.address == p then hs else h ∷ destroy p hs

abbrev pub set_eof : ℕ → List Handle → List Handle
set_eof p [] = []
set_eof p (h ∷ hs) = if h.address == p then record h { eof = true } ∷ hs else h ∷ set_eof p hs

module _ {F T : Type 0} (host : Host F T) where
  abbrev pub reply : Reply → Sftp F T → Sftp F T
  reply r s = record s { replies = r ∷ s.replies }

  abbrev pub status : Status → Sftp F T → Outcome F T
  status c s = done (reply (reply_status c) s)

  abbrev pub reply_errno : Sftp F T → Outcome F T
  reply_errno s = status (errno_status (host.errno s.fs)) s

  -- A call of the C library, and what is done with its result.
  abbrev pub call : {A X : Type 0} → (F → A × F) → (A → Sftp F T → X) → Sftp F T → X
  call op k s = k (op s.fs).0 (record s { fs = (op s.fs).1 })

  abbrev pub finish : Bool → Sftp F T → Outcome F T
  finish ok s = if ok then status fx_ok s else reply_errno s

  -- `process_realpath`, with what is done if it returns true: the result tells whether the path is
  -- the root, and gives the path.
  abbrev pub resolved :
      (Bool → List ℕ → Sftp F T → Outcome F T) → Option (List ℕ) → Sftp F T → Outcome F T
  resolved k none s = reply_errno s
  resolved k (some buffer) s =
      if valid_path buffer then k (list_eq buffer root_path) buffer s else status fx_no_such_path s

  unfoldable pub validate :
      List ℕ → (Bool → List ℕ → Sftp F T → Outcome F T) → Sftp F T → Outcome F T
  validate path k s = call (host.realpath path) (resolved k) s

  unfoldable pub validate_dir :
      List ℕ → (Bool → List ℕ → Sftp F T → Outcome F T) → Sftp F T → Outcome F T
  validate_dir path k s =
      if leb host.path_max (length path)
      then status fx_no_such_path s
      else validate (dir_of path) k s

  -- `new (&_heap) Handle (...)`, and the handle that the client gets.
  abbrev pub given_handle : Option (List ℕ × T) → Sftp F T → Outcome F T
  given_handle none s = done s
  given_handle (some (key, table)) s = done (reply (reply_handle key) (record s { table = table }))

  unfoldable pub new_handle : Handle → Sftp F T → Outcome F T
  new_handle h s =
      given_handle (host.handle_alloc s.next s.table)
        (record s { handles = record h { address = s.next } ∷ s.handles; next = suc s.next })

  -- A message with a handle: its object, of the type that is wanted.
  abbrev pub of_type : HandleType → HandleType → Outcome F T → Outcome F T → Outcome F T
  of_type hdir hdir yes_ no_ = yes_
  of_type hfile hfile yes_ no_ = yes_
  of_type hdir hfile yes_ no_ = no_
  of_type hfile hdir yes_ no_ = no_

  abbrev pub at_object : (Handle → Sftp F T → Outcome F T) → Option Handle → Sftp F T → Outcome F T
  at_object k none s = crashed
  at_object k (some h) s = k h s

  abbrev pub at_pointer : (Handle → Sftp F T → Outcome F T) → Option ℕ → Sftp F T → Outcome F T
  at_pointer k none s = status fx_invalid_handle s
  at_pointer k (some p) s = at_object k (find p s.handles) s

  unfoldable pub with_handle : List ℕ → (Handle → Sftp F T → Outcome F T) → Sftp F T → Outcome F T
  with_handle key k s = at_pointer k (host.find_handle key s.table) s

  -- `readdir` and `fread` through a null pointer crash.
  abbrev pub through : Option ℕ → (ℕ → Sftp F T → Outcome F T) → Sftp F T → Outcome F T
  through none k s = crashed
  through (some d) k s = k d s
