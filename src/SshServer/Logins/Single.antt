-- ===== src/SshServer/Logins/Single.antt =====
-- Authentication in src/server/ssh_server/server.cc: a user without multiple logins has one session.
use genode_world.Prelude.{
  ℕ, suc, ◌+◌, ◌≤◌, ◌==◌, if◌then◌else◌, Bool, true, false, Bool-cases, not, ◌&&◌, ◌||◌, List, [],
  ◌∷◌, Option, none, some, list_eq, list_eq_sound, ◌≡◌, ◌≢◌, ◌⊎◌, inl, inr, refl, sym, ap, ◌∙◌,
  arith, subst, if-true, if-false,
}
use genode_world.SshServer.Logins.{
  string, Login, Session, Server, SignatureState, state_none, state_valid, state_error, lookup,
  or_else, change, has_user, allow_multi_login, change_session, succeeded, cleared, disconnect,
  fail_password, with_login, with_key, same_key, auth_password, auth_pubkey, in_state, valid,
  lookup_session,
}

abbrev one_if : Bool → ℕ
one_if true = 1
one_if false = 0

abbrev is_user : List ℕ → Session → Bool
is_user u s = list_eq (string s.user) u

-- How many sessions have the user.
abbrev pub count : List ℕ → List Session → ℕ
count u [] = 0
count u (s ∷ ss) = one_if (is_user u s) + count u ss

abbrev Fresh : ℕ → List Session → Type 0
Fresh h [] = Unit
Fresh h (s ∷ ss) = (s.session ≢ h) × Fresh h ss

abbrev pub Distinct : List Session → Type 0
Distinct [] = Unit
Distinct (s ∷ ss) = Fresh s.session ss × Distinct ss

change-Fresh : (h : ℕ) (f : Session → Session) (ss : List Session) → Fresh h ss → change h f ss ≡ ss
unfolding change
change-Fresh h f [] d = refl
change-Fresh h f (s ∷ ss) (ne, d) =
    ap (λ x. x ∷ change h f ss) (if-false (s.session == h) _ _ (ground (arith, ne)))
    ∙ ap (λ xs. s ∷ xs) (change-Fresh h f ss d)

one_if_le : (b : Bool) → one_if b ≤ 1
one_if_le true = omega arith
one_if_le false = omega arith

change-head :
    (h : ℕ) (f : Session → Session) (s : Session) (ss : List Session)
    → ((s.session ≡ h) × (change h f (s ∷ ss) ≡ f s ∷ change h f ss))
      ⊎ (change h f (s ∷ ss) ≡ s ∷ change h f ss)
unfolding change
change-head h f s ss = elim (Bool-cases (s.session == h)) [
  | inl e ↦ inl (ground (arith, e), ap (λ x. x ∷ change h f ss) (if-true (s.session == h) _ _ e))
  | inr e ↦ inr (ap (λ x. x ∷ change h f ss) (if-false (s.session == h) _ _ e))
]

-- One session changes.
count-change :
    (u : List ℕ) (h : ℕ) (f : Session → Session) (ss : List Session)
    → Distinct ss
    → count u (change h f ss) ≤ suc (count u ss)
unfolding change
count-change u h f [] d = omega arith
count-change u h f (s ∷ ss) (fr, d) = elim (change-head h f s ss) [
  | inl (e, c) ↦
      let same = change-Fresh h f ss (subst (λ k. Fresh k ss) e fr) in
      omega (arith, ap (count u) c, ap (count u) same, one_if_le (is_user u (f s)))
  | inr c ↦ omega (arith, ap (count u) c, count-change u h f ss d)
]

-- A change that makes no session one of the user.
count-change_le :
    (u : List ℕ) (h : ℕ) (f : Session → Session) (ss : List Session)
    → ((s : Session) → one_if (is_user u (f s)) ≤ one_if (is_user u s))
    → count u (change h f ss) ≤ count u ss
unfolding change
count-change_le u h f [] le = omega arith
count-change_le u h f (s ∷ ss) le = elim (change-head h f s ss) [
  | inl (e, c) ↦ omega (arith, ap (count u) c, le s, count-change_le u h f ss le)
  | inr c ↦ omega (arith, ap (count u) c, count-change_le u h f ss le)
]

count-has_user : (u : List ℕ) (ss : List Session) → has_user u ss ≡ false → count u ss ≡ 0
unfolding has_user
count-has_user u [] h = refl
count-has_user u (s ∷ ss) h = head (is_user u s) refl h (count-has_user u ss)
  where
    head :
        (b : Bool)
        → is_user u s ≡ b
        → (b || has_user u ss) ≡ false
        → (has_user u ss ≡ false → count u ss ≡ 0)
        → one_if (is_user u s) + count u ss ≡ 0
    head true e h' ih = cc
    head false e h' ih = omega (arith, ap one_if e, ih h')

pub lookup_lem :
    {Key : Type 0} (u : List ℕ) (ls : List (Login Key)) (l : Login Key)
    → lookup u ls ≡ some l
    → string l.user ≡ u
unfolding lookup
lookup_lem u [] l h = cc
lookup_lem u (k ∷ ls) l h = found (lookup u ls) refl h (lookup_lem u ls l)
  where
    found :
        (o : Option (Login _))
        → lookup u ls ≡ o
        → or_else o (if list_eq (string k.user) u then some k else none) ≡ some l
        → (lookup u ls ≡ some l → string l.user ≡ u)
        → string l.user ≡ u
    found (some m) e h' ih = ih (e ∙ h')
    found none e h' ih = elim (Bool-cases (list_eq (string k.user) u)) [
      | inl t ↦
          let p : some k ≡ some l = sym (if-true (list_eq (string k.user) u) _ _ t) ∙ h' in
          let q : k ≡ l = cc in sym (ap (λ m. string m.user) q) ∙ list_eq_sound (string k.user) u t
      | inr f ↦ cc (sym (if-false (list_eq (string k.user) u) _ _ f) ∙ h')
    ]

fail_keeps : (n : ℕ) (s : Session) → (fail_password n s).user ≡ s.user
fail_keeps n s = ground arith

second : (a b : Bool) → (a && b) ≡ true → b ≡ true
second true b e = e
second false b e = cc

module _ {Key : Type 0} where
  -- A user whose login does not allow multiple logins has at most one session.
  abbrev pub Single : Server Key → Type 0
  Single sv =
      (u : List ℕ) (l : Login Key)
      → lookup u sv.logins ≡ some l
      → l.multi_login ≡ false
      → count u sv.sessions ≤ 1

  kept :
      (h : ℕ) (f : Session → Session) (sv : Server Key)
      → ((s : Session) → (f s).user ≡ s.user)
      → Single sv
      → Single (change_session h f sv)
  kept h f sv same si u l e m =
      let le = si u l e m in
      let c =
        count-change_le u h f sv.sessions
          (λ s. omega (arith, ap (λ x. one_if (list_eq (string x) u)) (same s))) in
      omega arith

  allowed :
      (l : Login Key) (ss : List Session)
      → allow_multi_login l ss ≡ true
      → l.multi_login ≡ false
      → count (string l.user) ss ≡ 0
  allowed l ss a m =
      count-has_user (string l.user) ss
        (negated (has_user (string l.user) ss) (sym (if-false l.multi_login _ _ m) ∙ a))
    where
      negated : (b : Bool) → not b ≡ true → b ≡ false
      negated true e = cc
      negated false e = refl

  adopted :
      (h : ℕ) (f : Session → Session) (sv : Server Key) (u : List ℕ) (l : Login Key)
      → ((s : Session) → (f s).user ≡ l.user)
      → Distinct sv.sessions
      → lookup u sv.logins ≡ some l
      → allow_multi_login l sv.sessions ≡ true
      → Single sv
      → Single (change_session h f sv)
  adopted h f sv u l same d found a si v m e single =
      elim (Bool-cases (list_eq (string l.user) v)) [
        | inl t ↦
            let p : string l.user ≡ v = list_eq_sound (string l.user) v t in
            let q : v ≡ u = sym p ∙ lookup_lem u sv.logins l found in
            let r : some m ≡ some l = sym e ∙ ap (λ x. lookup x sv.logins) q ∙ found in
            let ml : m ≡ l = cc in
            let z = allowed l sv.sessions a (sym (ap (λ x. x.multi_login) ml) ∙ single) in
            let c = count-change v h f sv.sessions d in
            omega (arith, ap (λ x. count x sv.sessions) p)
        | inr n ↦
            let le = si v m e single in
            let c =
              count-change_le v h f sv.sessions
                (λ s. omega (arith, ap one_if (ap (λ x. list_eq (string x) v) (same s) ∙ n))) in
            omega arith
      ]

  after_password :
      (h : ℕ) (u pass : List ℕ) (sv : Server Key) (o : Option (Login Key))
      → lookup u sv.logins ≡ o
      → Distinct sv.sessions
      → Single sv
      → Single (with_login h u pass sv o).1
  after_password h u pass sv none e d si =
      kept h (fail_password sv.max_auth_attempts) sv (fail_keeps sv.max_auth_attempts) si
  after_password h u pass sv (some l) e d si =
      elim (Bool-cases (list_eq (string l.user) u && list_eq (string l.password) pass)) [
        | inl t ↦ elim (Bool-cases (allow_multi_login l sv.sessions)) [
          | inl a ↦
              subst (λ (r : Bool × Server Key). Single r.1)
                (sym (
                  if-true (list_eq (string l.user) u && list_eq (string l.password) pass) _ _ t
                  ∙ if-true (allow_multi_login l sv.sessions) _ _ a))
                (adopted h (λ s. succeeded l.user (cleared s)) sv u l (λ s. refl) d e a si)
          | inr a ↦
              subst (λ (r : Bool × Server Key). Single r.1)
                (sym (
                  if-true (list_eq (string l.user) u && list_eq (string l.password) pass) _ _ t
                  ∙ if-false (allow_multi_login l sv.sessions) _ _ a))
                (kept h disconnect sv (λ s. refl) si)
        ]
        | inr n ↦
            subst (λ (r : Bool × Server Key). Single r.1)
              (sym (if-false (list_eq (string l.user) u && list_eq (string l.password) pass) _ _ n))
              (kept h (fail_password sv.max_auth_attempts) sv (fail_keeps sv.max_auth_attempts) si)
      ]

  after_key :
      (cmp : Key → Key → Bool) (h : ℕ) (u : List ℕ) (k : Key) (sv : Server Key)
      (o : Option (Login Key))
      → lookup u sv.logins ≡ o
      → Distinct sv.sessions
      → Single sv
      → Single (with_key cmp h k sv o).1
  after_key cmp h u k sv none e d si = si
  after_key cmp h u k sv (some l) e d si =
      elim (Bool-cases (same_key cmp k l.pub_key && allow_multi_login l sv.sessions)) [
        | inl t ↦
            subst (λ (r : Bool × Server Key). Single r.1)
              (sym (if-true (same_key cmp k l.pub_key && allow_multi_login l sv.sessions) _ _ t))
              (adopted h (succeeded l.user) sv u l (λ s. refl) d e
                (second (same_key cmp k l.pub_key) (allow_multi_login l sv.sessions) t) si)
        | inr n ↦
            subst (λ (r : Bool × Server Key). Single r.1)
              (sym (if-false (same_key cmp k l.pub_key && allow_multi_login l sv.sessions) _ _ n))
              si
      ]

  -- If the sessions are distinct and every user whose login does not allow multiple logins has at
  -- most one of them, this is so after any attempt to authenticate with a password or with a key,
  -- whatever its result.
  pub authentication-Single :
      (cmp : Key → Key → Bool) (h : ℕ) (u pass : List ℕ) (k : Key) (state : SignatureState)
      (sv : Server Key)
      → Distinct sv.sessions
      → Single sv
      → Single (auth_password h u pass sv).1 × Single (auth_pubkey cmp h u k state sv).1
  unfolding auth_password auth_pubkey
  authentication-Single cmp h u pass k state sv d si = (
    branch (valid (lookup_session h sv.sessions)) (with_login h u pass sv (lookup u sv.logins))
        (after_password h u pass sv (lookup u sv.logins) refl d si),
    branch (valid (lookup_session h sv.sessions)) (in_state cmp h u k state sv) (stated state),
  )
    where
      branch :
          (b : Bool) (r : Bool × Server Key) → Single r.1 → Single (if b then r else (false, sv)).1
      branch true r s = s
      branch false r s = si

      stated : (st : SignatureState) → Single (in_state cmp h u k st sv).1
      stated state_none = si
      stated state_valid = after_key cmp h u k sv (lookup u sv.logins) refl d si
      stated state_error = si
