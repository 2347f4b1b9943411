-- ===== src/RomVerify/Requests.antt =====
-- `Main` of src/proxy/rom_verify/main.cc.
pub mod Views
pub mod Spec
pub mod Refine
pub mod Verified
use genode_world.Prelude.{
  ℕ, ◌==◌, if◌then◌else◌, Bool, true, false, List, [], ◌∷◌, Option, none, some,
}
use genode_world.RomVerify.Verify.{
  Crypto, Policy, Verdict, accepted, service_denied, beyond, check_policy,
}

-- A `Session` by its server ID and the content of the ROM module that it was opened for.
pub record Session : Type 0 where
  pub id : ℕ
  pub rom : List ℕ

-- What is told to the parent: `deliver_session_cap`, `session_response`, `upgrade` and `close`.
pub data Event : Type 0 where
  delivered : ℕ → Event
  denied : ℕ → Event
  upgraded : ℕ → ℕ → Event
  session_ok : ℕ → Event
  closed : ℕ → Event
  session_closed : ℕ → Event

-- The environment: the libraries, the policy of a configuration for the session arguments (none
-- if there is no policy for the label), and the ROM session that the parent opens for them, if any.
pub record Env (Config : Type 0) : Type 0 where
  pub crypto : Crypto
  pub policy : Config → List ℕ → Option Policy
  pub open_rom : List ℕ → Option (List ℕ)

pub record Main (Config : Type 0) : Type 0 where
  pub config : Config
  pub config_stale : Bool
  pub sessions : List Session
  pub events : List Event

pub data Kind : Type 0 where
  create upgrade close unknown : Kind

-- A node of `session_requests`.
pub record Request : Type 0 where
  pub id_attr : Option ℕ
  pub kind : Kind
  pub args : Option (List ℕ)
  pub ram_quota : ℕ

-- `server_id_space`
unfoldable pub find_session : ℕ → List Session → Option Session
find_session id [] = none
find_session id (s ∷ ss) = if s.id == id then some s else find_session id ss

unfoldable pub remove_session : ℕ → List Session → List Session
remove_session id [] = []
remove_session id (s ∷ ss) = if s.id == id then ss else s ∷ remove_session id ss

-- How a request ends: with the new state, with an exception that nothing catches
-- (`Unknown_id`), or with a read beyond the digest.
pub data Outcome (Config : Type 0) : Type 0 where
  handled : Main Config → Outcome Config
  uncaught : Outcome Config
  overrun : Outcome Config

module _ {Config : Type 0} (env : Env Config) where
  abbrev pub tell : Event → Main Config → Main Config
  tell event m = record m { events = event ∷ m.events }

  abbrev pub with_sessions : List Session → Main Config → Main Config
  with_sessions ss m = record m { sessions = ss }

  abbrev pub deny : ℕ → Main Config → Outcome Config
  deny id m = handled (tell (denied id) m)

  -- The end of the constructor of `Session`, and what the handler does next.
  abbrev pub conclude : ℕ → List ℕ → Main Config → Verdict → Outcome Config
  conclude id rom m accepted =
      handled (tell (delivered id) (with_sessions (record { id = id; rom = rom } ∷ m.sessions) m))
  conclude id rom m service_denied = deny id m
  conclude id rom m beyond = overrun

  -- The member `server_id` takes an ID that is free, or throws.
  abbrev pub enroll : ℕ → Policy → List ℕ → Main Config → Option Session → Outcome Config
  enroll id policy rom m (some other) = deny id m
  enroll id policy rom m none = conclude id rom m (check_policy env.crypto policy rom)

  abbrev pub open_session : ℕ → Policy → Main Config → Option (List ℕ) → Outcome Config
  open_session id policy m none = deny id m
  open_session id policy m (some rom) = enroll id policy rom m (find_session id m.sessions)

  abbrev pub with_policy : ℕ → List ℕ → Main Config → Option Policy → Outcome Config
  with_policy id args m none = deny id m
  with_policy id args m (some policy) = open_session id policy m (env.open_rom args)

  abbrev pub create_session : ℕ → Main Config → Option (List ℕ) → Outcome Config
  create_session id m none = handled m
  create_session id m (some args) = with_policy id args m (env.policy m.config args)

  abbrev pub upgrade_session : ℕ → ℕ → Main Config → Option Session → Outcome Config
  upgrade_session id quota m none = uncaught
  upgrade_session id quota m (some s) = handled (tell (session_ok id) (tell (upgraded id quota) m))

  abbrev pub close_session : ℕ → Main Config → Option Session → Outcome Config
  close_session id m none = uncaught
  close_session id m (some s) =
      handled (
        tell (session_closed id)
          (with_sessions (remove_session id m.sessions) (tell (closed id) m)))

  abbrev pub dispatch : Kind → ℕ → Request → Main Config → Outcome Config
  dispatch create id r m = create_session id m r.args
  dispatch upgrade id r m = upgrade_session id r.ram_quota m (find_session id m.sessions)
  dispatch close id r m = close_session id m (find_session id m.sessions)
  dispatch unknown id r m = handled m

  abbrev pub with_id : Option ℕ → Request → Main Config → Outcome Config
  with_id none r m = handled m
  with_id (some id) r m = dispatch r.kind id r m

  -- `handle_session_request`
  unfoldable pub handle_session_request : Request → Main Config → Outcome Config
  handle_session_request r m = with_id r.id_attr r m

  abbrev pub and_then : Outcome Config → (Main Config → Outcome Config) → Outcome Config
  and_then (handled m) f = f m
  and_then uncaught f = uncaught
  and_then overrun f = overrun

  unfoldable pub handle_all : List Request → Main Config → Outcome Config
  handle_all [] m = handled m
  handle_all (r ∷ rs) m = and_then (handle_session_request r m) (λ m'. handle_all rs m')

  -- `handle_config`
  pub handle_config : Main Config → Main Config
  handle_config m = record m { config_stale = true }

  -- `config_rom.update ()`, with the newest configuration
  unfoldable pub update_config : Config → Main Config → Main Config
  update_config newest m =
      if m.config_stale then record m { config = newest; config_stale = false } else m

  -- `handle_session_requests`
  unfoldable pub handle_session_requests : Config → List Request → Main Config → Outcome Config
  handle_session_requests newest requests m = handle_all requests (update_config newest m)
