-- ===== src/RomVerify/Requests/Refine.antt =====
-- The service as a map from session IDs to the content that each session serves.
use genode_world.Prelude.{
  ℕ, ◌≡◌, refl, sym, subst, ap, if◌then◌else◌, List, [], ◌∷◌, Option, none, some, arith,
}
use mathlib.Core.Path.{fun_ext}
use genode_world.RomVerify.Verify.{Policy, Verdict, accepted, service_denied, beyond, check_policy}
use genode_world.RomVerify.Requests.{
  Session, Env, Main, Kind, create, upgrade, close, unknown, Request, find_session, remove_session,
  Outcome, handled, uncaught, overrun, handle_session_request, handle_all, and_then, conclude,
  enroll, open_session, with_policy, create_session, upgrade_session, close_session, dispatch,
  with_id, update_config, handle_session_requests,
}
use genode_world.RomVerify.Requests.Spec.{
  View, assign, admit, offer, spec_create, if_open, spec_dispatch, spec_with_id, spec_request,
  spec_next, spec_all,
}
use genode_world.RomVerify.Requests.Views.{
  Unique, view, rom_of, find_session-remove_session, remove_session-Unique,
}

module _ {Config : Type 0} (env : Env Config) where
  -- The outcome shows `v`, and keeps the IDs apart and the configuration.
  abbrev pub Shows : Config → Outcome Config → Option View → Type 0
  Shows config (handled m) v =
      (v ≡ some (view m.sessions)) × Unique m.sessions × (m.config ≡ config)
  Shows config uncaught v = v ≡ none
  Shows config overrun v = v ≡ none

  view_cons :
      (id : ℕ) (rom : List ℕ) (ss : List Session)
      → assign id (some rom) (view ss) ≡ view (record { id = id; rom = rom } ∷ ss)
  unfolding find_session
  view_cons id rom ss = fun_ext λ j. ground arith

  view_remove :
      (id : ℕ) (ss : List Session)
      → Unique ss
      → assign id none (view ss) ≡ view (remove_session id ss)
  view_remove id ss u = fun_ext λ j. ground (arith, find_session-remove_session id j ss u)

  module _ (id : ℕ) (m : Main Config) (u : Unique m.sessions) where
    conclude-Shows :
        (rom : List ℕ) (verdict : Verdict)
        → find_session id m.sessions ≡ none
        → Shows m.config (conclude env id rom m verdict) (admit id rom (view m.sessions) verdict)
    conclude-Shows rom accepted free = (ap some (view_cons id rom m.sessions), (free, u), refl)
    conclude-Shows rom service_denied free = (refl, u, refl)
    conclude-Shows rom beyond free = refl

    enroll-Shows :
        (policy : Policy) (rom : List ℕ) (o : Option Session)
        → find_session id m.sessions ≡ o
        → Shows m.config
            (enroll env id policy rom m o)
            (offer env id (view m.sessions) (some policy) (some rom) (rom_of o))
    enroll-Shows policy rom (some other) e = (refl, u, refl)
    enroll-Shows policy rom none e = conclude-Shows rom (check_policy env.crypto policy rom) e

    open_session-Shows :
        (policy : Policy) (rom : Option (List ℕ))
        → Shows m.config
            (open_session env id policy m rom)
            (offer env id (view m.sessions) (some policy) rom (view m.sessions id))
    open_session-Shows policy none = (refl, u, refl)
    open_session-Shows policy (some rom) = enroll-Shows policy rom (find_session id m.sessions) refl

    with_policy-Shows :
        (args : List ℕ) (policy : Option Policy)
        → Shows m.config
            (with_policy env id args m policy)
            (offer env id (view m.sessions) policy (env.open_rom args) (view m.sessions id))
    with_policy-Shows args none = (refl, u, refl)
    with_policy-Shows args (some policy) = open_session-Shows policy (env.open_rom args)

    create_session-Shows :
        (args : Option (List ℕ))
        → Shows m.config
            (create_session env id m args)
            (spec_create env m.config id (view m.sessions) args)
    create_session-Shows none = (refl, u, refl)
    create_session-Shows (some args) = with_policy-Shows args (env.policy m.config args)

    upgrade_session-Shows :
        (quota : ℕ) (o : Option Session)
        → Shows m.config (upgrade_session env id quota m o) (if_open (rom_of o) (view m.sessions))
    upgrade_session-Shows quota none = refl
    upgrade_session-Shows quota (some s) = (refl, u, refl)

    close_session-Shows :
        (o : Option Session)
        → Shows m.config
            (close_session env id m o)
            (if_open (rom_of o) (assign id none (view m.sessions)))
    close_session-Shows none = refl
    close_session-Shows (some s) =
        (ap some (view_remove id m.sessions u), remove_session-Unique id m.sessions u, refl)

    dispatch-Shows :
        (kind : Kind) (r : Request)
        → Shows m.config
            (dispatch env kind id r m)
            (spec_dispatch env m.config kind id r (view m.sessions))
    dispatch-Shows create r = create_session-Shows r.args
    dispatch-Shows upgrade r = upgrade_session-Shows r.ram_quota (find_session id m.sessions)
    dispatch-Shows close r = close_session-Shows (find_session id m.sessions)
    dispatch-Shows unknown r = (refl, u, refl)

  with_id-Shows :
      (id : Option ℕ) (r : Request) (m : Main Config)
      → Unique m.sessions
      → Shows m.config (with_id env id r m) (spec_with_id env m.config id r (view m.sessions))
  with_id-Shows none r m u = (refl, u, refl)
  with_id-Shows (some id) r m u = dispatch-Shows id m u r.kind r

  next_request-Shows :
      (config : Config) (rs : List Request)
      → ((m : Main Config)
          → Unique m.sessions
          → m.config ≡ config
          → Shows config (handle_all env rs m) (spec_all env config rs (view m.sessions)))
      → (o : Outcome Config) (v : Option View) → Shows config o v
      → Shows config
          (and_then env o (λ m. handle_all env rs m))
          (spec_next (spec_all env config rs) v)
  next_request-Shows config rs later (handled m) v (e, u, c) =
      subst (λ t. Shows config (handle_all env rs m) (spec_next (spec_all env config rs) t)) (sym e)
        (later m u c)
  next_request-Shows config rs later uncaught v e = ap (spec_next (spec_all env config rs)) e
  next_request-Shows config rs later overrun v e = ap (spec_next (spec_all env config rs)) e

  handle_all-Shows :
      (config : Config) (rs : List Request) (m : Main Config)
      → Unique m.sessions
      → m.config ≡ config
      → Shows config (handle_all env rs m) (spec_all env config rs (view m.sessions))
  unfolding handle_all handle_session_request
  handle_all-Shows config [] m u c = (refl, u, c)
  handle_all-Shows config (r ∷ rs) m u c =
      next_request-Shows config rs (handle_all-Shows config rs) (with_id env r.id_attr r m)
        (spec_request env config r (view m.sessions))
        (subst (λ k. Shows k (with_id env r.id_attr r m) (spec_request env k r (view m.sessions))) c
          (with_id-Shows r.id_attr r m u))

  -- The configuration that holds for the requests.
  abbrev pub current : Config → Main Config → Config
  current newest m = if m.config_stale then newest else m.config

  update_config-current :
      (newest : Config) (m : Main Config)
      → ((update_config env newest m).config ≡ current newest m)
        × ((update_config env newest m).sessions ≡ m.sessions)
  unfolding update_config
  update_config-current newest m = ground arith

  -- A list of session requests does to the sessions, seen as a map from IDs to ROM contents, what
  -- the specification does to this map, under the newest configuration if the one in use is stale,
  -- and the service ends by an exception or a read beyond the digest exactly where the
  -- specification ends, if no ID was taken twice; none is afterwards.
  pub handle_session_requests-Shows :
      (newest : Config) (rs : List Request) (m : Main Config)
      → Unique m.sessions
      → Shows
          (current newest m)
          (handle_session_requests env newest rs m)
          (spec_all env (current newest m) rs (view m.sessions))
  unfolding handle_session_requests
  handle_session_requests-Shows newest rs m u =
      let up = update_config-current newest m in
      subst
        (λ ss.
          Shows (current newest m) (handle_all env rs (update_config env newest m))
            (spec_all env (current newest m) rs (view ss)))
        up.1
        (handle_all-Shows (current newest m) rs (update_config env newest m)
          (subst Unique (sym up.1) u) up.0)
