-- ===== src/SshServer/Sftp/Files/Messages.antt =====
-- The functions of `process_message` of src/server/ssh_server/sftp.cc, one by one.
use genode_world.Prelude.{
  ℕ, suc, ◌<◌, ltb, ◌==◌, if◌then◌else◌, Bool, true, false, List, [], ◌∷◌, Option, none, some, ◌≡◌,
  inl, inr, refl, length, suc, ◌≡◌,
}
use genode_world.SshServer.Sftp.Host.{
  Host, Handle, hdir, hfile, FileStat, Sftp, Outcome, Message, realpath_of, stat_of, opendir_of,
  open_of, readdir_of, read_of, write_of, close_of, remove_of, mkdir_of, rmdir_of, unsupported,
  fx_bad_message,
}
use genode_world.SshServer.Sftp.Files.{
  opened_dir, opened_file, with_fd, data_read, seeked, read_file, write_file, stat_known,
  process_message,
}
use genode_world.SshServer.Sftp.Calls.{
  status, call, finish, given_handle, new_handle, of_type, with_handle, through, of_type,
  with_handle,
}
use genode_world.SshServer.Sftp.Values.{mode_of, open_flags, fd_mode}
use genode_world.SshServer.Sftp.Files.Safe.{TypedAs, IsLawful, object-Safe, alloc-Safe}
use genode_world.SshServer.Sftp.Files.Answered.{
  SafeState, Answers, if_Answers, finish-Answers, validate-Answers, validate_dir-Answers,
  with_handle-Answers, of_type-Answers, through-Answers, names_done-Answers,
}
use genode_world.SshServer.Sftp.Files.Listing.{loop-Answers}
use genode_world.SshServer.Sftp.Files.Closing.{Processed, safe, process_close_closes}

module _ {F T : Type 0} (host : Host F T) (entries : ℕ → F → ℕ)
    (lawful : IsLawful host entries) where
  module _ (Silent : Type 0) where
    data_read-Answers :
        (f : ℕ) (bytes : List ℕ) (s : Sftp F T)
        → SafeState host entries lawful s
        → Answers host entries lawful Silent (length s.replies) (data_read host f bytes s)
    data_read-Answers f [] s v =
        if_Answers host entries lawful Silent (host.feof f s.fs) (length s.replies) _ _
          (v, inl refl) (v, inl refl)
    data_read-Answers f (b ∷ bytes) s v = (v, inl refl)

    stat_known-Answers :
        (o : Option FileStat) (s : Sftp F T)
        → SafeState host entries lawful s
        → Answers host entries lawful Silent (length s.replies) (stat_known host o s)
    stat_known-Answers none s v = (v, inl refl)
    stat_known-Answers (some st) s v = (v, inl refl)

  -- A new object gets a handle, or stays unknown if libssh has none left.
  new_handle-Answers :
      (h : Handle) (s : Sftp F T)
      → SafeState host entries lawful s
      → TypedAs h.type h
      → Answers host entries lawful
          (host.handle_alloc s.next s.table ≡ none)
          (length s.replies)
          (new_handle host h s)
  unfolding new_handle
  new_handle-Answers h s v ty = given (host.handle_alloc s.next s.table) refl
    where
      given :
          (o : Option (List ℕ × T))
          → host.handle_alloc s.next s.table ≡ o
          → Answers host entries lawful
              (host.handle_alloc s.next s.table ≡ none)
              (length s.replies)
              (given_handle host o (record s {
                handles = record h { address = s.next } ∷ s.handles;
                next = suc s.next;
              }))
      given none e =
          (object-Safe host entries lawful h s.table s.handles s.next ty v, inr (e, refl))
      given (some (key, t)) e =
          (alloc-Safe host entries lawful h s.table t key s.handles s.next ty e v, inl refl)

  opened_dir-Answers :
      (path : List ℕ) (root : Bool) (o : Option ℕ) (s : Sftp F T)
      → SafeState host entries lawful s
      → Answers host entries lawful
          (host.handle_alloc s.next s.table ≡ none)
          (length s.replies)
          (opened_dir host path root o s)
  opened_dir-Answers path root none s v = (v, inl refl)
  opened_dir-Answers path root (some d) s v = new_handle-Answers _ s v (d, refl)

  opened_file-Answers :
      (path : List ℕ) (o : Option ℕ) (s : Sftp F T)
      → SafeState host entries lawful s
      → Answers host entries lawful
          (host.handle_alloc s.next s.table ≡ none)
          (length s.replies)
          (opened_file host path o s)
  opened_file-Answers path none s v = (v, inl refl)
  opened_file-Answers path (some f) s v = new_handle-Answers _ s v (f, refl)

  with_fd-Answers :
      (path : List ℕ) (flags : ℕ) (o : Option ℕ) (s : Sftp F T)
      → SafeState host entries lawful s
      → Answers host entries lawful
          (host.handle_alloc s.next s.table ≡ none)
          (length s.replies)
          (with_fd host path flags o s)
  with_fd-Answers path flags none s v = (v, inl refl)
  with_fd-Answers path flags (some fd) s v =
      let r = host.fdopen fd (fd_mode flags) s.fs in
      opened_file-Answers path r.0 (record s { fs = r.1 }) v

  seeked-Answers :
      (Silent : Type 0) (k : Sftp F T → Outcome F T) (ok : Bool) (s : Sftp F T)
      → SafeState host entries lawful s
      → Answers host entries lawful Silent (length s.replies) (k s)
      → Answers host entries lawful Silent (length s.replies) (seeked host k ok s)
  seeked-Answers Silent k true s v h = h
  seeked-Answers Silent k false s v h = (v, inl refl)

  -- The messages that may stay without a reply.
  abbrev pub Silent : Sftp F T → Message → Type 0
  Silent s (opendir_of path) = host.handle_alloc s.next s.table ≡ none
  Silent s (open_of path flags permissions) = host.handle_alloc s.next s.table ≡ none
  Silent s (realpath_of path) = ⊥
  Silent s (stat_of mode path) = ⊥
  Silent s (readdir_of key) = ⊥
  Silent s (read_of key offset len) = ⊥
  Silent s (write_of key offset bytes) = ⊥
  Silent s (close_of string key) = ⊥
  Silent s (remove_of path) = ⊥
  Silent s (mkdir_of path flags permissions) = ⊥
  Silent s (rmdir_of path) = ⊥
  Silent s unsupported = ⊥

  file-Answers :
      (key : List ℕ) (k : ℕ → Sftp F T → Outcome F T) (s : Sftp F T)
      → SafeState host entries lawful s
      → ((f : ℕ) → Answers host entries lawful ⊥ (length s.replies) (k f s))
      → Answers host entries lawful ⊥ (length s.replies) (
          with_handle host key
            (λ h t.
              of_type host h.type hfile (through host h.file k t) (status host fx_bad_message t))
            s)
  file-Answers key k s v go = with_handle-Answers host entries lawful ⊥ key _ s v (λ h e ty.
      of_type-Answers host entries lawful ⊥ h hfile (length s.replies) _ _ ty
        (λ t. through-Answers host entries lawful ⊥ h.file k s (length s.replies) t go)
        (v, inl refl))

  -- The messages that may leave a pointer to an object that there is no more.
  abbrev pub Loose : Message → Type 0
  Loose (close_of string key) = Unit
  Loose (realpath_of path) = ⊥
  Loose (stat_of mode path) = ⊥
  Loose (opendir_of path) = ⊥
  Loose (open_of path flags permissions) = ⊥
  Loose (readdir_of key) = ⊥
  Loose (read_of key offset len) = ⊥
  Loose (write_of key offset bytes) = ⊥
  Loose (remove_of path) = ⊥
  Loose (mkdir_of path flags permissions) = ⊥
  Loose (rmdir_of path) = ⊥
  Loose unsupported = ⊥

  safely :
      (fuel : ℕ) (m : Message) (s : Sftp F T)
      → Answers host entries lawful (Silent s m) (length s.replies) (process_message host fuel m s)
      → Processed host entries lawful ⊥
          (Silent s m)
          (length s.replies)
          (process_message host fuel m s)
  safely fuel m s = safe host entries lawful _ _ (process_message host fuel m s)

  -- In a state in which every handle is typed, so that it has the directory or the file that its
  -- type says, and the table of libssh finds existing handles only, every message is processed
  -- without an access through a null or dangling pointer and within the fuel, if it exceeds the
  -- entries left in any directory. One reply is sent, or none if a handle was to be opened and
  -- libssh has none left. The state is such a state again, unless the message was a close. The
  -- table and the directories behave as `IsLawful` says.
  pub process_message-Processed :
      (fuel : ℕ) (m : Message) (s : Sftp F T)
      → SafeState host entries lawful s
      → ((d : ℕ) → entries d s.fs < fuel)
      → Processed host entries lawful
          (Loose m)
          (Silent s m)
          (length s.replies)
          (process_message host fuel m s)
  unfolding process_message
  process_message-Processed fuel (realpath_of path) s v b =
      safely fuel (realpath_of path) s
        (validate-Answers host entries lawful ⊥ path _ s v (λ f root buffer. (v, inl refl)))
  process_message-Processed fuel (stat_of mode path) s v b = safely fuel (stat_of mode path) s (
      validate-Answers host entries lawful ⊥ path _ s v (λ f root buffer.
        stat_known-Answers ⊥ (host.get_stat mode path f).0
          (record s { fs = (host.get_stat mode path f).1 }) v))
  process_message-Processed fuel (opendir_of path) s v b = safely fuel (opendir_of path) s (
      validate-Answers host entries lawful (host.handle_alloc s.next s.table ≡ none) path _ s v
        (λ f root buffer.
          opened_dir-Answers path root (host.opendir path f).0
            (record s { fs = (host.opendir path f).1 }) v))
  process_message-Processed fuel (open_of path flags permissions) s v b =
      safely fuel (open_of path flags permissions) s (
        validate_dir-Answers host entries lawful (host.handle_alloc s.next s.table ≡ none) path _ s
          v
          (λ f root buffer.
            let r = host.open_file path (open_flags flags) (mode_of flags permissions) f in
            with_fd-Answers path flags r.0 (record s { fs = r.1 }) v))
  process_message-Processed fuel (readdir_of key) s v b = safely fuel (readdir_of key) s (
      with_handle-Answers host entries lawful ⊥ key _ s v (λ h e ty.
        of_type-Answers host entries lawful ⊥ h hdir (length s.replies) _ _ ty
          (λ t.
            if_Answers host entries lawful ⊥ h.eof (length s.replies) _ _
              (names_done-Answers host entries lawful ⊥ [] false true s v)
              (through-Answers host entries lawful ⊥ h.dir _ s (length s.replies) t
                (λ d. loop-Answers host entries lawful fuel h d false 0 [] s v (b d))))
          (v, inl refl)))
  process_message-Processed fuel (read_of key offset len) s v b =
      safely fuel (read_of key offset len) s (
        let n = if ltb 65536 len then 65536 else len in
        file-Answers key (read_file host offset len) s v (λ f.
          let r = host.fseeko f offset s.fs in
          let s1 : Sftp F T = record s { fs = r.1 } in
          let q = host.fread f n r.1 in
          seeked-Answers ⊥ (λ t. call host (host.fread f n) (data_read host f) t) r.0 s1 v
            (data_read-Answers ⊥ f q.0 (record s1 { fs = q.1 }) v)))
  process_message-Processed fuel (write_of key offset bytes) s v b =
      safely fuel (write_of key offset bytes) s (
        file-Answers key (write_file host offset bytes) s v (λ f.
          let r = host.fseeko f offset s.fs in
          let s1 : Sftp F T = record s { fs = r.1 } in
          let q = host.fwrite f bytes r.1 in
          seeked-Answers ⊥
            (λ t. call host (host.fwrite f bytes) (λ k u. finish host (k == length bytes) u) t) r.0
            s1 v
            (finish-Answers host entries lawful ⊥ (q.0 == length bytes) (record s1 { fs = q.1 })
              v)))
  process_message-Processed fuel (close_of string key) s v b =
      process_close_closes host entries lawful string key s v
  process_message-Processed fuel (remove_of path) s v b = safely fuel (remove_of path) s (
      validate-Answers host entries lawful ⊥ path _ s v (λ f root buffer.
        finish-Answers host entries lawful ⊥ (host.unlink path f).0
          (record s { fs = (host.unlink path f).1 }) v))
  process_message-Processed fuel (mkdir_of path flags permissions) s v b =
      safely fuel (mkdir_of path flags permissions) s (
        validate_dir-Answers host entries lawful ⊥ path _ s v (λ f root buffer.
          let r = host.mkdir path (mode_of flags permissions) f in
          finish-Answers host entries lawful ⊥ r.0 (record s { fs = r.1 }) v))
  process_message-Processed fuel (rmdir_of path) s v b = safely fuel (rmdir_of path) s (
      validate-Answers host entries lawful ⊥ path _ s v (λ f root buffer.
        finish-Answers host entries lawful ⊥ (host.rmdir path f).0
          (record s { fs = (host.rmdir path f).1 }) v))
  process_message-Processed fuel unsupported s v b = safely fuel unsupported s ((v, inl refl))
