-- ===== src/SshServer/Sftp/Files/Listing.antt =====
-- The loop of `process_readdir` of src/server/ssh_server/sftp.cc.
use genode_world.Prelude.{
  ℕ, zero, suc, ◌<◌, leb, Bool, true, false, List, ◌∷◌, ◌++◌, Option, none, some, ◌≡◌, inl, refl,
  arith, length,
}
use genode_world.SshServer.Sftp.Host.{Host, Handle, FileStat, lstat, Entry, Sftp}
use genode_world.SshServer.Sftp.Files.{listed, at_entry, readdir_loop}
use genode_world.SshServer.Sftp.Calls.{set_eof}
use genode_world.SshServer.Sftp.Files.Safe.{IsLawful, set_eof-Safe}
use genode_world.SshServer.Sftp.Files.Answered.{SafeState, Answers, if_Answers, names_done-Answers}

module _ {F T : Type 0} (host : Host F T) (entries : ℕ → F → ℕ)
    (lawful : IsLawful host entries) where
  -- The loop over a directory ends when its entries do, at the latest.
  pub loop-Answers :
      (fuel : ℕ) (h : Handle) (d : ℕ) (found : Bool) (i : ℕ) (names : List Entry) (s : Sftp F T)
      → SafeState host entries lawful s
      → entries d s.fs < fuel
      → Answers host entries lawful ⊥
          (length s.replies)
          (readdir_loop host fuel h d found i names s)
  unfolding readdir_loop
  loop-Answers zero h d found i names s v lt = absurd (omega arith)
  loop-Answers (suc fuel) h d found i names s v lt =
      if_Answers host entries lawful ⊥ (leb 10 i) (length s.replies) _ _
        (names_done-Answers host entries lawful ⊥ names found false s v)
        (at_entry_answers (host.readdir d s.fs).0 (record s { fs = (host.readdir d s.fs).1 }) refl v
          (λ name e. let l = lawful.readdir_lem d s.fs name e in omega arith)
          (λ i' names' s' v' lt'. loop-Answers fuel h d true i' names' s' v' lt'))
    where
      Goes : Type 0
      Goes =
          (i' : ℕ) (names' : List Entry) (s' : Sftp F T)
          → SafeState host entries lawful s'
          → entries d s'.fs < fuel
          → Answers host entries lawful ⊥ (length s'.replies)
              (readdir_loop host fuel h d true i' names' s')

      listed_answers :
          (name : List ℕ) (o : Option FileStat) (t : Sftp F T)
          → SafeState host entries lawful t
          → entries d t.fs < fuel
          → Goes
          → Answers host entries lawful ⊥
              (length t.replies)
              (listed host (readdir_loop host fuel h d true) i names h name o t)
      listed_answers name none t w less again = (w, inl refl)
      listed_answers name (some st) t w less again =
          if_Answers host entries lawful ⊥ _ (length t.replies) _ _ (again i names t w less)
            (again (suc i) _ t w less)

      at_entry_answers :
          (o : Option (List ℕ)) (t : Sftp F T)
          → (host.readdir d s.fs).0 ≡ o
          → SafeState host entries lawful t
          → ((name : List ℕ) → o ≡ some name → entries d t.fs < fuel)
          → Goes
          → Answers host entries lawful ⊥
              (length t.replies)
              (at_entry host (readdir_loop host fuel h d true) i names found h o t)
      at_entry_answers none t e w less again =
          names_done-Answers host entries lawful ⊥ names found true
            (record t { handles = set_eof h.address t.handles })
            (set_eof-Safe host entries lawful h.address t.table t.handles t.next w)
      at_entry_answers (some name) t e w less again =
          let path = h.name ++ b'/' ∷ name in
          if_Answers host entries lawful ⊥ (leb host.path_max (length path)) (length t.replies) _ _
            (w, inl refl)
            (listed_answers name (host.get_stat lstat path t.fs).0
              (record t { fs = (host.get_stat lstat path t.fs).1 }) w
              (let l = less name refl in let m = lawful.stat_lem d path t.fs lstat in omega arith)
              again)
