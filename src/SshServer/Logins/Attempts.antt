-- ===== src/SshServer/Logins/Attempts.antt =====
-- Authentication by password in src/server/ssh_server/server.cc.
use genode_world.Prelude.{
  ℕ, Bool, true, false, not, ◌&&◌, List, [], ◌∷◌, Option, none, some, list_eq, list_eq_refl, ◌≡◌,
  refl, sym, ap, ◌∙◌, if-true, if-false, ◌||◌, false, if◌then◌else◌, ◌++◌, append-nil,
}
use genode_world.SshServer.Logins.{
  string, Login, Session, Server, lookup, allow_multi_login, change_session, succeeded, cleared,
  with_login, auth_password, valid, lookup_session, LoginNode, PolicyNode, import_, import_all,
  import_single, or_else, policies_of, with_policies, new_login, has_user,
}
use genode_world.SshServer.Logins.Single.{lookup_lem}

-- None of the logins in the configuration is one of the user.
abbrev pub NoneOf : List ℕ → List LoginNode → Type 0
NoneOf u [] = Unit
NoneOf u (n ∷ ns) = (list_eq (string n.user) u ≡ false) × NoneOf u ns

module _ {Key : Type 0} where
  -- A login without a password has the empty one.
  pub empty_password_accepted :
      (h : ℕ) (u : List ℕ) (sv : Server Key) (s : Session) (l : Login Key)
      → lookup_session h sv.sessions ≡ some s
      → lookup u sv.logins ≡ some l
      → l.password ≡ none
      → allow_multi_login l sv.sessions ≡ true
      → auth_password h u [] sv ≡ (true, change_session h (λ s. succeeded l.user (cleared s)) sv)
  unfolding auth_password list_eq
  empty_password_accepted h u sv s l known found no_password a =
      if-true (valid (lookup_session h sv.sessions)) _ _ (ap valid known)
      ∙ ap (with_login h u [] sv) found
      ∙ if-true (list_eq (string l.user) u && list_eq (string l.password) []) _ _ (
          ap (λ x. list_eq x u && list_eq (string l.password) []) (lookup_lem u sv.logins l found)
          ∙ ap (λ b. b && list_eq (string l.password) []) (list_eq_refl u)
          ∙ ap (λ p. list_eq (string p) []) no_password)
      ∙ if-true (allow_multi_login l sv.sessions) _ _ a

  lookup-other :
      (u : List ℕ) (l : Login Key) (ls : List (Login Key))
      → list_eq (string l.user) u ≡ false
      → lookup u (l ∷ ls) ≡ lookup u ls
  unfolding lookup
  lookup-other u l ls e =
      ap (or_else (lookup u ls)) (if-false (list_eq (string l.user) u) (some l) none e)
      ∙ or_else_none (lookup u ls)
    where
      or_else_none : (o : Option (Login Key)) → or_else o none ≡ o
      or_else_none none = refl
      or_else_none (some x) = refl

  module _ (import_pubkey_file : List ℕ → Option Key) (policies : List PolicyNode)
      (u : List ℕ) where
    -- A login of somebody else changes nothing for the user.
    import_single-other :
        (n : LoginNode) (ls : List (Login Key))
        → list_eq (string n.user) u ≡ false
        → lookup u (import_single import_pubkey_file n policies ls) ≡ lookup u ls
    import_single-other n ls e =
        same (not (valid n.user) || (not (valid n.password) && not (valid n.pub_key))) _ _ refl (
          same (valid (lookup (string n.user) ls)) _ _ refl (
            same (valid n.terminal) _ _ (by_policies (policies_of n.terminal policies))
              (lookup-other u _ ls e)))
      where
        same :
            (b : Bool) (x y : List (Login Key))
            → lookup u x ≡ lookup u ls
            → lookup u y ≡ lookup u ls
            → lookup u (if b then x else y) ≡ lookup u ls
        same true x y p q = p
        same false x y p q = q

        by_policies :
            (ps : List PolicyNode)
            → lookup u (with_policies import_pubkey_file n ps ls) ≡ lookup u ls
        by_policies [] = refl
        by_policies (p ∷ []) = lookup-other u _ ls e
        by_policies (p ∷ q ∷ ps) = refl

    import_all-other :
        (ns more : List LoginNode) (ls : List (Login Key))
        → NoneOf u ns
        → (list : List (Login Key)) × (lookup u list ≡ lookup u ls)
          × (import_all import_pubkey_file (ns ++ more) policies ls
              ≡ import_all import_pubkey_file more policies list)
    unfolding import_all
    import_all-other [] more ls others = (ls, refl, refl)
    import_all-other (n ∷ ns) more ls (e, others) =
        let (list, same, go) =
          import_all-other ns more (import_single import_pubkey_file n policies ls) others in
        (list, same ∙ import_single-other n ls e, go)

  -- A user who has no session yet and whose only login in the configuration has a key, no password
  -- and no terminal is authenticated with the empty password in any session that the server knows,
  -- whatever the logins of other users before and behind it are.
  pub key_login_without_password :
      (import_pubkey_file : List ℕ → Option Key) (u file : List ℕ) (sftp : Bool)
      (before behind : List LoginNode) (policies : List PolicyNode) (h : ℕ) (s : Session)
      (ss : List Session) (n : ℕ)
      → NoneOf u before
      → NoneOf u behind
      → lookup_session h ss ≡ some s
      → has_user u ss ≡ false
      → let node : LoginNode = record {
        user = some u;
        password = none;
        pub_key = some file;
        terminal = none;
        sftp = sftp;
      } in
        let sv : Server Key = record {
          sessions = ss;
          logins = import_ import_pubkey_file (before ++ node ∷ behind) policies;
          max_auth_attempts = n;
        } in
        auth_password h u [] sv ≡ (true, change_session h (λ x. succeeded (some u) (cleared x)) sv)
  unfolding import_all lookup
  key_login_without_password import_pubkey_file u file sftp before behind policies h s ss n
        others_before others_behind known alone =
      let node : LoginNode = record {
        user = some u;
        password = none;
        pub_key = some file;
        terminal = none;
        sftp = sftp;
      } in
      let (earlier, none_yet, go) =
        import_all-other import_pubkey_file policies u before (node ∷ behind) [] others_before in
      let login = new_login import_pubkey_file node false false in
      let (all, kept, go_on) =
        import_all-other import_pubkey_file policies u behind [] (login ∷ earlier) others_behind in
      let imported : import_single import_pubkey_file node policies earlier ≡ login ∷ earlier =
        if-false (valid (lookup u earlier)) _ _ (ap valid none_yet) in
      let logins : import_ import_pubkey_file (before ++ node ∷ behind) policies ≡ all =
        go
        ∙ ap (import_all import_pubkey_file behind policies) imported
        ∙ ap (λ ns. import_all import_pubkey_file ns policies (login ∷ earlier))
            (sym (append-nil behind))
        ∙ go_on in
      let known_login : lookup u (import_ import_pubkey_file (before ++ node ∷ behind) policies)
          ≡ some login =
        ap (lookup u) logins
        ∙ kept
        ∙ ap (λ o. or_else o (if list_eq u u then some login else none)) none_yet
        ∙ if-true (list_eq u u) (some login) none (list_eq_refl u) in
      empty_password_accepted h u _ s login known known_login refl (ap not alone)
