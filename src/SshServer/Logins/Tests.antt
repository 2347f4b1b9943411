-- ===== src/SshServer/Logins/Tests.antt =====
-- The theorems about logins at two sessions and keys that are numbers.
use genode_world.Prelude.{
  ℕ, ◌==◌, ◌≡◌, refl, true, false, List, [], ◌∷◌, Option, none, some, arith, list_eq,
}
use genode_world.SshServer.Logins.{
  LoginNode, Session, Server, state_valid, auth_password, auth_pubkey, change_session, succeeded,
  cleared, import_, import_all, lookup, lookup_session, has_user,
}
use genode_world.SshServer.Logins.Single.{Single, Distinct, authentication-Single}
use genode_world.SshServer.Logins.Attempts.{key_login_without_password}

abbrev import_key : List ℕ → Option ℕ
import_key file = some 7

abbrev first : Session
first = record {
  session = 1;
  user = none;
  bad_auth_attempts = 0;
  auth_sucessful = false;
  disconnected = false;
}

abbrev sessions : List Session
sessions = first ∷ record first { session = 2 } ∷ []

-- A user with a key and no password.
abbrev node : LoginNode
node = record {
  user = some (117 ∷ []);
  password = none;
  pub_key = some (107 ∷ []);
  terminal = none;
  sftp = true;
}

-- Somebody else's login.
abbrev somebody : LoginNode
somebody = record node { user = some (118 ∷ []); password = some (112 ∷ []) }

abbrev server : Server ℕ
server = record {
  sessions = sessions;
  logins = import_ import_key (somebody ∷ node ∷ []) [];
  max_auth_attempts = 3;
}

known : lookup_session 1 sessions ≡ some first
unfolding lookup_session
known = refl

alone : has_user (117 ∷ []) sessions ≡ false
unfolding has_user list_eq
alone = refl

other_user : list_eq (118 ∷ []) (117 ∷ []) ≡ false
unfolding list_eq
other_user = refl

key_login_without_password_example :
    auth_password 1 (117 ∷ []) [] server
    ≡ (true, change_session 1 (λ x. succeeded (some (117 ∷ [])) (cleared x)) server)
key_login_without_password_example =
    key_login_without_password import_key (117 ∷ []) (107 ∷ []) true (somebody ∷ []) [] [] 1 first
      sessions 3 (other_user, tt) tt known alone

distinct : Distinct sessions
distinct = (((λ e. absurd (omega (arith, e))), tt), (tt, tt))

no_user : Single server
unfolding lookup import_all list_eq
no_user [] l h m = cc
no_user (x ∷ u) l h m = omega arith

authentication-Single_example :
    Single (auth_password 1 (117 ∷ []) [] server).1
    × Single (auth_pubkey (λ a b. a == b) 1 (117 ∷ []) 7 state_valid server).1
authentication-Single_example =
    authentication-Single (λ a b. a == b) 1 (117 ∷ []) [] 7 state_valid server distinct no_user
