-- ===== src/SshServer/Sftp/Files/Answered.antt =====
-- Replies to the messages of `process_message` of src/server/ssh_server/sftp.cc.
use genode_world.Prelude.{
  ℕ, suc, leb, if◌then◌else◌, Bool, true, false, not, ◌&&◌, List, Option, none, some, Option-cases,
  ◌≡◌, ◌⊎◌, inl, inr, refl, sym, ap, ◌∙◌, subst, list_eq, length,
}
use genode_world.SshServer.Sftp.Host.{
  Host, Handle, hdir, hfile, HandleType, Entry, Reply, Sftp, Outcome, done, crashed, unfinished,
}
use genode_world.SshServer.Sftp.Calls
use genode_world.SshServer.Sftp.Files.{names_done}
use genode_world.SshServer.Sftp.Calls.{
  find, destroy, set_eof, status, reply_errno, call, finish, resolved, validate, validate_dir,
  given_handle, new_handle, of_type, at_object, at_pointer, with_handle, through,
}
use genode_world.SshServer.Sftp.Values.{valid_path, root_path, dir_of}
use genode_world.SshServer.Sftp.Files.Safe.{TypedAs, find_typed, IsLawful, Safe}

module _ {F T : Type 0} (host : Host F T) (entries : ℕ → F → ℕ)
    (lawful : IsLawful host entries) where
  abbrev pub SafeState : Sftp F T → Type 0
  SafeState s = Safe host s.table s.handles s.next

  -- The message was processed, with one reply to `n` older ones, or with none in the case `Silent`.
  abbrev pub Answers : Type 0 → ℕ → Outcome F T → Type 0
  Answers Silent n (done s) =
      SafeState s × ((length s.replies ≡ suc n) ⊎ (Silent × (length s.replies ≡ n)))
  Answers Silent n crashed = ⊥
  Answers Silent n unfinished = ⊥

  module _ (Silent : Type 0) where
    pub replied :
        (r : Reply) (s : Sftp F T)
        → SafeState s
        → Answers Silent (length s.replies) (done (Calls.reply host r s))
    replied r s v = (v, inl refl)

    pub if_Answers :
        (b : Bool) (n : ℕ) (o p : Outcome F T)
        → Answers Silent n o
        → Answers Silent n p
        → Answers Silent n (if b then o else p)
    if_Answers true n o p x y = x
    if_Answers false n o p x y = y

    pub finish-Answers :
        (ok : Bool) (s : Sftp F T)
        → SafeState s
        → Answers Silent (length s.replies) (finish host ok s)
    finish-Answers true s v = (v, inl refl)
    finish-Answers false s v = (v, inl refl)

    resolved-Answers :
        (k : Bool → List ℕ → Sftp F T → Outcome F T) (o : Option (List ℕ)) (s : Sftp F T)
        → SafeState s
        → ((root : Bool) (buffer : List ℕ) → Answers Silent (length s.replies) (k root buffer s))
        → Answers Silent (length s.replies) (resolved host k o s)
    resolved-Answers k none s v h = (v, inl refl)
    resolved-Answers k (some buffer) s v h =
        if_Answers (valid_path buffer) (length s.replies) _ _ (h (list_eq buffer root_path) buffer)
          (v, inl refl)

    -- The continuation runs in a state of which only the file system is another one.
    abbrev pub Continues : Sftp F T → (Bool → List ℕ → Sftp F T → Outcome F T) → Type 0
    Continues s k =
        (f : F) (root : Bool) (buffer : List ℕ)
        → Answers Silent (length s.replies) (k root buffer (record s { fs = f }))

    pub validate-Answers :
        (path : List ℕ) (k : Bool → List ℕ → Sftp F T → Outcome F T) (s : Sftp F T)
        → SafeState s
        → Continues s k
        → Answers Silent (length s.replies) (validate host path k s)
    unfolding validate
    validate-Answers path k s v h =
        resolved-Answers k (host.realpath path s.fs).0
          (record s { fs = (host.realpath path s.fs).1 }) v (h (host.realpath path s.fs).1)

    pub validate_dir-Answers :
        (path : List ℕ) (k : Bool → List ℕ → Sftp F T → Outcome F T) (s : Sftp F T)
        → SafeState s
        → Continues s k
        → Answers Silent (length s.replies) (validate_dir host path k s)
    unfolding validate_dir
    validate_dir-Answers path k s v h =
        if_Answers (leb host.path_max (length path)) (length s.replies) _ _ (v, inl refl)
          (validate-Answers (dir_of path) k s v h)

    -- A message with a handle: its object is typed.
    pub with_handle-Answers :
        (key : List ℕ) (k : Handle → Sftp F T → Outcome F T) (s : Sftp F T)
        → SafeState s
        → ((h : Handle)
            → host.find_handle key s.table ≡ some h.address
            → TypedAs h.type h
            → Answers Silent (length s.replies) (k h s))
        → Answers Silent (length s.replies) (with_handle host key k s)
    unfolding with_handle
    with_handle-Answers key k s v h = elim (Option-cases (host.find_handle key s.table)) [
      | inl e ↦
          subst (λ (o : Option ℕ). Answers Silent (length s.replies) (at_pointer host k o s))
            (sym e) (v, inl refl)
      | inr (p, e) ↦
          let (obj, f) = v.found key p e in
          let (ty, a, lt) = find_typed p s.next s.handles obj v.typed f in
          subst (λ (o : Option ℕ). Answers Silent (length s.replies) (at_pointer host k o s))
            (sym e)
            (subst (λ (o : Option Handle). Answers Silent (length s.replies) (at_object host k o s))
              (sym f) (h obj (e ∙ ap some (sym a)) ty))
    ]

    pub of_type-Answers :
        (h : Handle) (want : HandleType) (n : ℕ) (o p : Outcome F T)
        → TypedAs h.type h
        → (TypedAs want h → Answers Silent n o)
        → Answers Silent n p
        → Answers Silent n (of_type host h.type want o p)
    of_type-Answers h want n o p ty x y = by_type h.type want ty x
      where
        by_type :
            (a b : HandleType)
            → TypedAs a h
            → (TypedAs b h → Answers Silent n o)
            → Answers Silent n (of_type host a b o p)
        by_type hdir hdir t x' = x' t
        by_type hfile hfile t x' = x' t
        by_type hdir hfile t x' = y
        by_type hfile hdir t x' = y

    pub through-Answers :
        (r : Option ℕ) (k : ℕ → Sftp F T → Outcome F T) (s : Sftp F T) (n : ℕ)
        → (d : ℕ) × (r ≡ some d)
        → ((d : ℕ) → Answers Silent n (k d s))
        → Answers Silent n (through host r k s)
    through-Answers none k s n (d, e) h = cc
    through-Answers (some d) k s n e h = h d

    pub names_done-Answers :
        (names : List Entry) (found eof : Bool) (s : Sftp F T)
        → SafeState s
        → Answers Silent (length s.replies) (names_done host names found eof s)
    names_done-Answers names found eof s v =
        if_Answers (not found && eof) (length s.replies) _ _ (v, inl refl) (v, inl refl)
