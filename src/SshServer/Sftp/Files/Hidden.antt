-- ===== src/SshServer/Sftp/Files/Hidden.antt =====
-- The root directory as `process_readdir` of src/server/ssh_server/sftp.cc shows it.
use genode_world.Prelude.{
  ℕ, zero, suc, ◌≤◌, ◌<◌, leb, if◌then◌else◌, Bool, true, false, Bool-cases, not, ◌&&◌, List, [],
  ◌∷◌, ◌++◌, Option, none, some, ◌≡◌, refl, sym, ◌∙◌, subst, arith, length, length-append, list_eq,
  list_eq_sound, if-true, if-false, inl, inr,
}
use genode_world.SshServer.Sftp.Host.{
  Host, Handle, hdir, hfile, HandleType, FileStat, lstat, Entry, Reply, reply_status, reply_name,
  reply_handle, reply_data, reply_attr, reply_names, Sftp, Outcome, done, crashed, unfinished,
  readdir_of, fx_bad_message,
}
use genode_world.SshServer.Sftp.Files.{
  names_done, entry_of, listed, at_entry, readdir_loop, list_dir, process_message,
}
use genode_world.SshServer.Sftp.Calls.{
  find, of_type, at_pointer, at_object, through, with_handle, set_eof, status,
}
use genode_world.SshServer.Sftp.Files.Safe.{IsLawful}
use genode_world.SshServer.Sftp.Files.Answered.{SafeState}
use genode_world.SshServer.Sftp.Files.Closing.{Processed}
use genode_world.SshServer.Sftp.Files.Messages.{process_message-Processed}

-- "sftp"
abbrev pub shown_name : List ℕ
shown_name = b's' ∷ b'f' ∷ b't' ∷ b'p' ∷ []

abbrev pub AllShown : List Entry → Type 0
AllShown [] = Unit
AllShown (e ∷ es) = (e.name ≡ shown_name) × AllShown es

shown-append :
    (es : List Entry) (e : Entry) → AllShown es → e.name ≡ shown_name → AllShown (es ++ e ∷ [])
shown-append [] e a q = (q, tt)
shown-append (x ∷ es) e (p, a) q = (p, shown-append es e a q)

-- Of the names at most ten, and only "sftp".
abbrev pub Modest : Reply → Type 0
Modest (reply_names names) = AllShown names × (length names ≤ 10)
Modest (reply_status c) = Unit
Modest (reply_name n) = ⊥
Modest (reply_handle k) = ⊥
Modest (reply_data d) = ⊥
Modest (reply_attr a) = ⊥

abbrev pub Newest : (Reply → Type 0) → List Reply → Type 0
Newest P [] = ⊥
Newest P (r ∷ rs) = P r

module _ {F T : Type 0} (host : Host F T) where
  -- The newest reply, if the message is processed.
  abbrev pub Shows : Outcome F T → Type 0
  Shows (done s) = Newest Modest s.replies
  Shows crashed = Unit
  Shows unfinished = Unit

  if_Shows : (b : Bool) (o p : Outcome F T) → Shows o → Shows p → Shows (if b then o else p)
  if_Shows true o p x y = x
  if_Shows false o p x y = y

  names_done-Shows :
      (names : List Entry) (found eof : Bool) (s : Sftp F T)
      → AllShown names
      → length names ≤ 10
      → Shows (names_done host names found eof s)
  names_done-Shows names found eof s a l = if_Shows (not found && eof) _ _ tt (a, l)

  loop-Shows :
      (fuel : ℕ) (h : Handle) (d : ℕ) (found : Bool) (names : List Entry) (s : Sftp F T)
      → h.root ≡ true
      → AllShown names
      → length names ≤ 10
      → Shows (readdir_loop host fuel h d found (length names) names s)
  unfolding readdir_loop
  loop-Shows zero h d found names s root a l = tt
  loop-Shows (suc fuel) h d found names s root a l = elim (Bool-cases (leb 10 (length names))) [
    | inl e ↦
        subst Shows (sym (if-true (leb 10 (length names)) _ _ e))
          (names_done-Shows names found false s a l)
    | inr e ↦ subst Shows (sym (if-false (leb 10 (length names)) _ _ e)) (
        at_entry_shows (ground (arith, e)) (host.readdir d s.fs).0
          (record s { fs = (host.readdir d s.fs).1 })
          (λ names' s' a' l'. loop-Shows fuel h d true names' s' root a' l'))
  ]
    where
      Again : Type 0
      Again =
          (names' : List Entry) (s' : Sftp F T)
          → AllShown names'
          → length names' ≤ 10
          → Shows (readdir_loop host fuel h d true (length names') names' s')

      listed_shows :
          length names < 10
          → (name : List ℕ) (o : Option FileStat) (t : Sftp F T) → Again
          → Shows (listed host (readdir_loop host fuel h d true) (length names) names h name o t)
      listed_shows lt name none t again = tt
      listed_shows lt name (some st) t again = elim (Bool-cases (list_eq name shown_name)) [
        | inl e ↦
            let entry = entry_of host name st in
            let n : length (names ++ entry ∷ []) ≡ suc (length names) =
              length-append names (entry ∷ []) ∙ omega arith in
            if_Shows (h.root && not (list_eq name shown_name)) _ _ (again names t a l) (
              subst (λ k. Shows (readdir_loop host fuel h d true k (names ++ entry ∷ []) t)) n
                (again (names ++ entry ∷ []) t
                  (shown-append names entry a (list_eq_sound name shown_name e))
                  (omega (arith, n))))
        | inr e ↦
            let hidden : (h.root && not (list_eq name shown_name)) ≡ true =
              ground (arith, root, e) in
            subst Shows (sym (if-true (h.root && not (list_eq name shown_name)) _ _ hidden))
              (again names t a l)
      ]

      at_entry_shows :
          length names < 10
          → (o : Option (List ℕ)) (t : Sftp F T) → Again
          → Shows (at_entry host (readdir_loop host fuel h d true) (length names) names found h o t)
      at_entry_shows lt none t again =
          names_done-Shows names found true (record t { handles = set_eof h.address t.handles }) a l
      at_entry_shows lt (some name) t again =
          let path = h.name ++ b'/' ∷ name in
          if_Shows (leb host.path_max (length path)) _ _ tt (
            listed_shows lt name (host.get_stat lstat path t.fs).0
              (record t { fs = (host.get_stat lstat path t.fs).1 }) again)

  list_dir-Shows :
      (fuel : ℕ) (h : Handle) (s : Sftp F T) → h.root ≡ true → Shows (list_dir host fuel h s)
  list_dir-Shows fuel h s root =
      if_Shows h.eof _ _ (names_done-Shows [] false true s tt (omega arith)) (in_dir h.dir)
    where
      in_dir :
          (o : Option ℕ)
          → Shows (through host o (λ d s'. readdir_loop host fuel h d false 0 [] s') s)
      in_dir none = tt
      in_dir (some d) = loop-Shows fuel h d false [] s root tt (omega arith)

  of_directory :
      (fuel : ℕ) (h : Handle) (s : Sftp F T) (y : HandleType)
      → y ≡ hdir
      → h.root ≡ true
      → Shows (of_type host y hdir (list_dir host fuel h s) (status host fx_bad_message s))
  of_directory fuel h s hdir e root = list_dir-Shows fuel h s root
  of_directory fuel h s hfile e root = tt

  readdir-Shows :
      (fuel : ℕ) (key : List ℕ) (p : ℕ) (h : Handle) (s : Sftp F T)
      → host.find_handle key s.table ≡ some p
      → find p s.handles ≡ some h
      → h.type ≡ hdir
      → h.root ≡ true
      → Shows (process_message host fuel (readdir_of key) s)
  unfolding process_message with_handle
  readdir-Shows fuel key p h s e f ty root =
      subst (λ (o : Option ℕ). Shows (at_pointer host k o s)) (sym e)
        (subst (λ (o : Option Handle). Shows (at_object host k o s)) (sym f)
          (of_directory fuel h s h.type ty root))
    where
      k : Handle → Sftp F T → Outcome F T
      k h s = of_type host h.type hdir (list_dir host fuel h s) (status host fx_bad_message s)

module _ {F T : Type 0} (host : Host F T) (entries : ℕ → F → ℕ)
    (lawful : IsLawful host entries) where
  settled :
      (Loose Silent : Type 0) (n : ℕ) (o : Outcome F T)
      → Processed host entries lawful Loose Silent n o
      → Shows host o
      → (s' : Sftp F T) × (o ≡ done s') × Newest Modest s'.replies
  settled Loose Silent n (done s) p q = (s, refl, q)
  settled Loose Silent n crashed p q = absurd p
  settled Loose Silent n unfinished p q = absurd p

  -- In a state in which every handle has the directory or the file that its type says and the
  -- table of libssh finds existing handles only, and with more fuel than entries left in any
  -- directory, a readdir with a directory handle of the root is processed and its reply is a
  -- status or names: at most ten, and each of them is "sftp". The table and the directories behave
  -- as `IsLawful` says.
  pub process_message-Modest :
      (fuel : ℕ) (key : List ℕ) (p : ℕ) (h : Handle) (s : Sftp F T)
      → SafeState host entries lawful s
      → ((d : ℕ) → entries d s.fs < fuel)
      → host.find_handle key s.table ≡ some p
      → find p s.handles ≡ some h
      → h.type ≡ hdir
      → h.root ≡ true
      → (s' : Sftp F T) × (process_message host fuel (readdir_of key) s ≡ done s')
        × Newest Modest s'.replies
  process_message-Modest fuel key p h s v b e f ty root =
      settled _ _ _ (process_message host fuel (readdir_of key) s)
        (process_message-Processed host entries lawful fuel (readdir_of key) s v b)
        (readdir-Shows host fuel key p h s e f ty root)
