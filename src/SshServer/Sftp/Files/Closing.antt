-- ===== src/SshServer/Sftp/Files/Closing.antt =====
-- Handles that are closed, in src/server/ssh_server/sftp.cc.
use genode_world.Prelude.{
  ℕ, suc, ◌==◌, Bool, true, false, List, Option, none, some, Option-cases, ◌≡◌, ◌≢◌, ◌⊎◌, inl, inr,
  refl, sym, ap, ◌∙◌, subst, arith, length, if-false,
}
use genode_world.SshServer.Sftp.Host.{
  Host, Handle, hdir, hfile, HandleType, Sftp, Outcome, done, crashed, unfinished, Message,
  readdir_of, read_of, write_of, close_of, realpath_of, stat_of, opendir_of, open_of, remove_of,
  mkdir_of, rmdir_of, unsupported,
}
use genode_world.SshServer.Sftp.Files.{closed, close_handle, process_close, process_message}
use genode_world.SshServer.Sftp.Calls.{
  find, destroy, finish, of_type, at_object, at_pointer, with_handle,
}
use genode_world.SshServer.Sftp.Files.Safe.{find_typed, IsLawful, unless, find-destroy}
use genode_world.SshServer.Sftp.Files.Answered.{SafeState, Answers}

module _ {F T : Type 0} (host : Host F T) (entries : ℕ → F → ℕ)
    (lawful : IsLawful host entries) where
  -- The state is safe, or in the case `Loose` not, and there is a reply, or in the case `Silent` not.
  abbrev pub Processed : Type 0 → Type 0 → ℕ → Outcome F T → Type 0
  Processed Loose Silent n (done s) =
      (SafeState host entries lawful s ⊎ Loose)
      × ((length s.replies ≡ suc n) ⊎ (Silent × (length s.replies ≡ n)))
  Processed Loose Silent n crashed = ⊥
  Processed Loose Silent n unfinished = ⊥

  pub safe :
      (Silent : Type 0) (n : ℕ) (o : Outcome F T)
      → Answers host entries lawful Silent n o
      → Processed ⊥ Silent n o
  safe Silent n (done s) (v, r) = (inl v, r)
  safe Silent n crashed b = b
  safe Silent n unfinished b = b

  finish_closes :
      (ok : Bool) (s : Sftp F T) → Processed Unit ⊥ (length s.replies) (finish host ok s)
  finish_closes true s = (inr tt, inl refl)
  finish_closes false s = (inr tt, inl refl)

  closed_closes :
      (close : ℕ → F → Bool × F) (o : Option ℕ) (s : Sftp F T)
      → Processed Unit ⊥ (length s.replies) (closed host close o s)
  closed_closes close none s = (inr tt, inl refl)
  closed_closes close (some d) s =
      finish_closes (close d s.fs).0 (record s { fs = (close d s.fs).1 })

  close_closes :
      (string : ℕ) (h : Handle) (s : Sftp F T)
      → Processed Unit ⊥ (length s.replies) (close_handle host string h s)
  close_closes string h s = by_type h.type
    where
      s' : Sftp F T
      s' = record s {
        table = host.handle_remove string s.table;
        handles = destroy h.address s.handles;
      }

      by_type :
          (a : HandleType)
          → Processed Unit ⊥ (length s.replies) (
              of_type host a hdir
                (closed host host.closedir h.dir s')
                (closed host host.fclose h.file s'))
      by_type hdir = closed_closes host.closedir h.dir s'
      by_type hfile = closed_closes host.fclose h.file s'

  -- A `close` with an unknown handle is only replied to, any other finds an object.
  pub process_close_closes :
      (string : ℕ) (key : List ℕ) (s : Sftp F T)
      → SafeState host entries lawful s
      → Processed Unit ⊥ (length s.replies) (process_close host string key s)
  unfolding with_handle
  process_close_closes string key s v = elim (Option-cases (host.find_handle key s.table)) [
    | inl e ↦
        subst (λ (o : Option ℕ). Out (at_pointer host (close_handle host string) o s)) (sym e)
          (inl v, inl refl)
    | inr (p, e) ↦
        let (h, f) = v.found key p e in
        subst (λ (o : Option ℕ). Out (at_pointer host (close_handle host string) o s)) (sym e)
          (subst (λ (o : Option Handle). Out (at_object host (close_handle host string) o s))
            (sym f) (close_closes string h s))
  ]
    where
      Out : Outcome F T → Type 0
      Out o = Processed Unit ⊥ (length s.replies) o

  -- The messages that use a handle, with its key.
  abbrev pub uses : Message → Option (List ℕ)
  uses (readdir_of key) = some key
  uses (read_of key offset len) = some key
  uses (write_of key offset bytes) = some key
  uses (close_of string key) = some key
  uses (realpath_of path) = none
  uses (stat_of mode path) = none
  uses (opendir_of path) = none
  uses (open_of path flags permissions) = none
  uses (remove_of path) = none
  uses (mkdir_of path flags permissions) = none
  uses (rmdir_of path) = none
  uses unsupported = none

  -- Every message that uses the handle `key` goes through a pointer to nothing.
  abbrev pub Dangles : List ℕ → Outcome F T → Type 0
  Dangles key (done s) =
      (fuel : ℕ) (m : Message) → uses m ≡ some key → process_message host fuel m s ≡ crashed
  Dangles key crashed = ⊥
  Dangles key unfinished = ⊥

  crashes :
      (key : List ℕ) (k : Handle → Sftp F T → Outcome F T) (s : Sftp F T) (p : ℕ)
      → host.find_handle key s.table ≡ some p
      → find p s.handles ≡ none
      → with_handle host key k s ≡ crashed
  unfolding with_handle
  crashes key k s p e f = ap (λ o. at_pointer host k o s) e ∙ ap (λ o. at_object host k o s) f

  dangles :
      (key : List ℕ) (s : Sftp F T) (p : ℕ)
      → host.find_handle key s.table ≡ some p
      → find p s.handles ≡ none
      → Dangles key (done s)
  unfolding process_message
  dangles key s p e f fuel (readdir_of k) u =
      crashes k _ s p (ap (λ x. host.find_handle x s.table) (cc u) ∙ e) f
  dangles key s p e f fuel (read_of k offset len) u =
      crashes k _ s p (ap (λ x. host.find_handle x s.table) (cc u) ∙ e) f
  dangles key s p e f fuel (write_of k offset bytes) u =
      crashes k _ s p (ap (λ x. host.find_handle x s.table) (cc u) ∙ e) f
  dangles key s p e f fuel (close_of string k) u =
      crashes k _ s p (ap (λ x. host.find_handle x s.table) (cc u) ∙ e) f
  dangles key s p e f fuel (realpath_of path) u = cc
  dangles key s p e f fuel (stat_of mode path) u = cc
  dangles key s p e f fuel (opendir_of path) u = cc
  dangles key s p e f fuel (open_of path flags permissions) u = cc
  dangles key s p e f fuel (remove_of path) u = cc
  dangles key s p e f fuel (mkdir_of path flags permissions) u = cc
  dangles key s p e f fuel (rmdir_of path) u = cc
  dangles key s p e f fuel unsupported u = cc

  -- In a state in which every handle has the directory or the file that its type says and the
  -- table of libssh finds existing handles only, a close of a known handle is processed, but the
  -- table still has the pointer, since it is asked to remove the address of the message's string,
  -- which is another one: if the next message is a read, write, readdir or close with the same
  -- handle, it goes through the pointer to the destroyed object. The table and the directories
  -- behave as `IsLawful` says.
  pub process_message-Dangles :
      (fuel string : ℕ) (key : List ℕ) (p : ℕ) (s : Sftp F T)
      → SafeState host entries lawful s
      → host.find_handle key s.table ≡ some p
      → string ≢ p
      → Dangles key (process_message host fuel (close_of string key) s)
  unfolding process_message with_handle
  process_message-Dangles fuel string key p s v e ne =
      let (h, f) = v.found key p e in
      let (ty, a, lt) = find_typed p s.next s.handles h v.typed f in
      subst (λ (o : Option ℕ). Dangles key (at_pointer host (close_handle host string) o s)) (sym e)
        (subst (λ (o : Option Handle). Dangles key (at_object host (close_handle host string) o s))
          (sym f)
          (by_type h h.type
            (lawful.remove_lem string s.table key
              ∙ ap (unless string) e
              ∙ if-false (p == string) _ _ (ground arith))
            (ap (λ x. find p (destroy x s.handles)) a ∙ find-destroy p s.next s.handles v.typed)))
    where
      s' : Handle → Sftp F T
      s' h = record s {
        table = host.handle_remove string s.table;
        handles = destroy h.address s.handles;
      }

      Stale : Sftp F T → Type 0
      Stale t = (host.find_handle key t.table ≡ some p) × (find p t.handles ≡ none)

      by_finish : (ok : Bool) (t : Sftp F T) → Stale t → Dangles key (finish host ok t)
      by_finish true t (e', f') = dangles key _ p e' f'
      by_finish false t (e', f') = dangles key _ p e' f'

      by_close :
          (close : ℕ → F → Bool × F) (o : Option ℕ) (t : Sftp F T)
          → Stale t
          → Dangles key (closed host close o t)
      by_close close none t (e', f') = dangles key _ p e' f'
      by_close close (some d) t st =
          by_finish (close d t.fs).0 (record t { fs = (close d t.fs).1 }) st

      by_type :
          (h : Handle) (y : HandleType)
          → host.find_handle key (host.handle_remove string s.table) ≡ some p
          → find p (destroy h.address s.handles) ≡ none
          → Dangles key (
              of_type host y hdir
                (closed host host.closedir h.dir (s' h))
                (closed host host.fclose h.file (s' h)))
      by_type h hdir e' f' = by_close host.closedir h.dir (s' h) (e', f')
      by_type h hfile e' f' = by_close host.fclose h.file (s' h) (e', f')
