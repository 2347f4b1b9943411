-- ===== src/SshServer/Logins.antt =====
-- `Login_registry` of src/server/ssh_server/login.h and the authentication in server.cc.
pub mod Single
pub mod Attempts
mod Tests
use genode_world.Prelude.{
  ℕ, ◌+◌, suc, ltb, leb, ◌==◌, if◌then◌else◌, Bool, true, false, not, ◌&&◌, ◌||◌, List, [], ◌∷◌,
  Option, none, some, list_eq,
}

-- A `Genode::String`: none if it is not valid.
abbrev pub Str : Type 0
Str = Option (List ℕ)

abbrev pub string : Str → List ℕ
string none = []
string (some s) = s

abbrev pub valid : {A : Type 0} → Option A → Bool
valid none = false
valid (some a) = true

pub record Login (Key : Type 0) : Type 0 where
  pub user : Str
  pub password : Str
  pub pub_key : Option Key
  pub allow_terminal : Bool
  pub allow_sftp : Bool
  pub terminal_name : Str
  pub multi_login : Bool
  pub request_terminal : Bool

-- The attributes of the nodes `login` and `policy`, as `attribute_value` gives them.
pub record LoginNode : Type 0 where
  pub user : Str
  pub password : Str
  pub pub_key : Str
  pub terminal : Str
  pub sftp : Bool

pub record PolicyNode : Type 0 where
  pub terminal_name : Str
  pub multi_login : Bool
  pub request_terminal : Bool

abbrev pub or_else : {A : Type 0} → Option A → Option A → Option A
or_else (some a) o = some a
or_else none o = o

-- The last one that the registry gives.
unfoldable pub lookup : {Key : Type 0} → List ℕ → List (Login Key) → Option (Login Key)
lookup u [] = none
lookup u (l ∷ ls) = or_else (lookup u ls) (if list_eq (string l.user) u then some l else none)

-- The policies with the name of a terminal.
unfoldable pub policies_of : Str → List PolicyNode → List PolicyNode
policies_of terminal [] = []
policies_of terminal (p ∷ ps) =
    let rest = policies_of terminal ps in
    if list_eq (string p.terminal_name) (string terminal) then p ∷ rest else rest

module _ {Key : Type 0} (import_pubkey_file : List ℕ → Option Key) where
  abbrev pub key_of : Str → Option Key
  key_of none = none
  key_of (some file) = import_pubkey_file file

  abbrev pub new_login : LoginNode → Bool → Bool → Login Key
  new_login node multi_login req_term = record {
    user = node.user;
    password = node.password;
    pub_key = key_of node.pub_key;
    allow_terminal = valid node.terminal;
    allow_sftp = node.sftp;
    terminal_name = node.terminal;
    multi_login = multi_login;
    request_terminal = req_term;
  }

  -- No policy, one, or more.
  abbrev pub with_policies : LoginNode → List PolicyNode → List (Login Key) → List (Login Key)
  with_policies node [] logins = logins
  with_policies node (p ∷ []) logins = new_login node p.multi_login p.request_terminal ∷ logins
  with_policies node (p ∷ q ∷ ps) logins = logins

  abbrev pub import_single : LoginNode → List PolicyNode → List (Login Key) → List (Login Key)
  import_single node policies logins =
      if not (valid node.user) || (not (valid node.password) && not (valid node.pub_key))
      then logins
      else if valid (lookup (string node.user) logins)
      then logins
      else if valid node.terminal
      then with_policies node (policies_of node.terminal policies) logins
      else new_login node false false ∷ logins

  unfoldable pub import_all : List LoginNode → List PolicyNode → List (Login Key) → List (Login Key)
  import_all [] policies logins = logins
  import_all (n ∷ ns) policies logins = import_all ns policies (import_single n policies logins)

  abbrev pub import_ : List LoginNode → List PolicyNode → List (Login Key)
  import_ nodes policies = import_all nodes policies []

-- A `Session` by its `ssh_session`, and whether `ssh_disconnect` was called for it.
pub record Session : Type 0 where
  pub session : ℕ
  pub user : Str
  pub bad_auth_attempts : ℕ
  pub auth_sucessful : Bool
  pub disconnected : Bool

pub record Server (Key : Type 0) : Type 0 where
  pub sessions : List Session
  pub logins : List (Login Key)
  pub max_auth_attempts : ℕ

unfoldable pub lookup_session : ℕ → List Session → Option Session
lookup_session h [] = none
lookup_session h (s ∷ ss) = or_else (lookup_session h ss) (if s.session == h then some s else none)

-- A change of the session that is found: their `ssh_session`s are distinct.
unfoldable pub change : ℕ → (Session → Session) → List Session → List Session
change h f [] = []
change h f (s ∷ ss) = (if s.session == h then f s else s) ∷ change h f ss

unfoldable pub has_user : List ℕ → List Session → Bool
has_user u [] = false
has_user u (s ∷ ss) = list_eq (string s.user) u || has_user u ss

abbrev pub adopt : Str → Session → Session
adopt u s = record s { user = u }

abbrev pub disconnect : Session → Session
disconnect s = record s { disconnected = true }

abbrev pub cleared : Session → Session
cleared s = record s { bad_auth_attempts = 0 }

abbrev pub succeeded : Str → Session → Session
succeeded u s = adopt u (record s { auth_sucessful = true })

abbrev pub fail_password : ℕ → Session → Session
fail_password max_auth_attempts s =
    let s' = record s { bad_auth_attempts = suc s.bad_auth_attempts } in
    if leb max_auth_attempts (suc s.bad_auth_attempts) then disconnect s' else s'

pub data SignatureState : Type 0 where
  state_none state_valid state_error : SignatureState

module _ {Key : Type 0} where
  abbrev pub allow_multi_login : Login Key → List Session → Bool
  allow_multi_login l ss = if l.multi_login then true else not (has_user (string l.user) ss)

  abbrev pub change_session : ℕ → (Session → Session) → Server Key → Server Key
  change_session h f sv = record sv { sessions = change h f sv.sessions }

  abbrev pub failed_password : ℕ → Server Key → Bool × Server Key
  failed_password h sv = (false, change_session h (fail_password sv.max_auth_attempts) sv)

  abbrev pub with_login : ℕ → List ℕ → List ℕ → Server Key → Option (Login Key) → Bool × Server Key
  with_login h u pass sv none = failed_password h sv
  with_login h u pass sv (some l) =
      if list_eq (string l.user) u && list_eq (string l.password) pass
      then if allow_multi_login l sv.sessions
        then (true, change_session h (λ s. succeeded l.user (cleared s)) sv)
        else (false, change_session h disconnect sv)
      else failed_password h sv

  unfoldable pub auth_password : ℕ → List ℕ → List ℕ → Server Key → Bool × Server Key
  auth_password h u pass sv =
      if valid (lookup_session h sv.sessions)
      then with_login h u pass sv (lookup u sv.logins)
      else (false, sv)

  -- `ssh_key_cmp` of libssh, which finds no key different from every key.
  abbrev pub same_key : (Key → Key → Bool) → Key → Option Key → Bool
  same_key cmp k none = false
  same_key cmp k (some k') = cmp k k'

  abbrev pub with_key :
      (Key → Key → Bool) → ℕ → Key → Server Key → Option (Login Key) → Bool × Server Key
  with_key cmp h k sv none = (false, sv)
  with_key cmp h k sv (some l) =
      if same_key cmp k l.pub_key && allow_multi_login l sv.sessions
      then (true, change_session h (succeeded l.user) sv)
      else (false, sv)

  abbrev pub in_state :
      (Key → Key → Bool) → ℕ → List ℕ → Key → SignatureState → Server Key → Bool × Server Key
  in_state cmp h u k state_none sv = (true, sv)
  in_state cmp h u k state_valid sv = with_key cmp h k sv (lookup u sv.logins)
  in_state cmp h u k state_error sv = (false, sv)

  unfoldable pub auth_pubkey :
      (Key → Key → Bool) → ℕ → List ℕ → Key → SignatureState → Server Key → Bool × Server Key
  auth_pubkey cmp h u k state sv =
      if valid (lookup_session h sv.sessions) then in_state cmp h u k state sv else (false, sv)
