-- ===== src/RomVerify/Requests/Verified.antt =====
-- Every session of the service was verified, and every request for one is answered.
use genode_world.Prelude.{
  ℕ, ◌≡◌, refl, ◌==◌, List, [], ◌∷◌, Option, none, some, inl, inr, Bool-cases,
}
use genode_world.RomVerify.Verify.{Policy, Verdict, accepted, service_denied, beyond, check_policy}
use genode_world.RomVerify.Requests.{
  Session, Env, Main, Kind, create, upgrade, close, unknown, Request, find_session, remove_session,
  Outcome, handled, uncaught, overrun, handle_session_request, handle_all, and_then, conclude,
  enroll, open_session, with_policy, create_session, upgrade_session, close_session, dispatch,
  with_id, update_config, handle_session_requests,
}

module _ {Config : Type 0} (env : Env Config) where
  -- The session's content is what the parent gave for some arguments, and passed the check of the
  -- policy that some configuration has for them.
  pub record Checked (s : Session) : Type 0 where
    pub config : Config
    pub args : List ℕ
    pub policy : Policy
    pub has_policy : env.policy config args ≡ some policy
    pub opened : env.open_rom args ≡ some s.rom
    pub passed : check_policy env.crypto policy s.rom ≡ accepted

  abbrev pub AllChecked : List Session → Type 0
  AllChecked [] = Unit
  AllChecked (s ∷ ss) = Checked s × AllChecked ss

  -- What holds of the sessions if the service goes on.
  abbrev pub Keeps : Outcome Config → Type 0
  Keeps (handled m) = AllChecked m.sessions
  Keeps uncaught = Unit
  Keeps overrun = Unit

  remove_session-AllChecked :
      (id : ℕ) (ss : List Session) → AllChecked ss → AllChecked (remove_session id ss)
  unfolding remove_session
  remove_session-AllChecked id [] h = tt
  remove_session-AllChecked id (s ∷ ss) h = elim (Bool-cases (s.id == id)) [
    | inl y ↦ rw y h.1
    | inr n ↦ rw n (h.0, remove_session-AllChecked id ss h.1)
  ]

  module _ (id : ℕ) (m : Main Config) (h : AllChecked m.sessions) where
    module _ (args rom : List ℕ) (policy : Policy) (p : env.policy m.config args ≡ some policy)
        (o : env.open_rom args ≡ some rom) where
      conclude-Keeps :
          (verdict : Verdict)
          → check_policy env.crypto policy rom ≡ verdict
          → Keeps (conclude env id rom m verdict)
      conclude-Keeps accepted e = (
        record {
          config = m.config;
          args = args;
          policy = policy;
          has_policy = p;
          opened = o;
          passed = e;
        },
        h,
      )
      conclude-Keeps service_denied e = h
      conclude-Keeps beyond e = tt

      enroll-Keeps : (taken : Option Session) → Keeps (enroll env id policy rom m taken)
      enroll-Keeps none = conclude-Keeps (check_policy env.crypto policy rom) refl
      enroll-Keeps (some s) = h

    open_session-Keeps :
        (args : List ℕ) (policy : Policy) (rom : Option (List ℕ))
        → env.policy m.config args ≡ some policy
        → env.open_rom args ≡ rom
        → Keeps (open_session env id policy m rom)
    open_session-Keeps args policy none p o = h
    open_session-Keeps args policy (some rom) p o =
        enroll-Keeps args rom policy p o (find_session id m.sessions)

    with_policy-Keeps :
        (args : List ℕ) (policy : Option Policy)
        → env.policy m.config args ≡ policy
        → Keeps (with_policy env id args m policy)
    with_policy-Keeps args none p = h
    with_policy-Keeps args (some policy) p =
        open_session-Keeps args policy (env.open_rom args) p refl

    create_session-Keeps : (args : Option (List ℕ)) → Keeps (create_session env id m args)
    create_session-Keeps none = h
    create_session-Keeps (some args) = with_policy-Keeps args (env.policy m.config args) refl

    dispatch-Keeps : (kind : Kind) (r : Request) → Keeps (dispatch env kind id r m)
    dispatch-Keeps create r = create_session-Keeps r.args
    dispatch-Keeps upgrade r = upgrade-Keeps (find_session id m.sessions)
      where
        upgrade-Keeps : (s : Option Session) → Keeps (upgrade_session env id r.ram_quota m s)
        upgrade-Keeps none = tt
        upgrade-Keeps (some s) = h
    dispatch-Keeps close r = close-Keeps (find_session id m.sessions)
      where
        close-Keeps : (s : Option Session) → Keeps (close_session env id m s)
        close-Keeps none = tt
        close-Keeps (some s) = remove_session-AllChecked id m.sessions h
    dispatch-Keeps unknown r = h

  request-Keeps :
      (id : Option ℕ) (r : Request) (m : Main Config)
      → AllChecked m.sessions
      → Keeps (with_id env id r m)
  request-Keeps none r m h = h
  request-Keeps (some id) r m h = dispatch-Keeps id m h r.kind r

  and_then-Keeps :
      (f : Main Config → Outcome Config) (o : Outcome Config)
      → ((m : Main Config) → AllChecked m.sessions → Keeps (f m))
      → Keeps o
      → Keeps (and_then env o f)
  and_then-Keeps f (handled m) hf h = hf m h
  and_then-Keeps f uncaught hf h = tt
  and_then-Keeps f overrun hf h = tt

  handle_all-Keeps :
      (rs : List Request) (m : Main Config) → AllChecked m.sessions → Keeps (handle_all env rs m)
  unfolding handle_all handle_session_request
  handle_all-Keeps [] m h = h
  handle_all-Keeps (r ∷ rs) m h =
      and_then-Keeps (λ m'. handle_all env rs m') (with_id env r.id_attr r m) (handle_all-Keeps rs)
        (request-Keeps r.id_attr r m h)

  -- If the content of every session was accepted by the policy that some configuration has for the
  -- session's arguments, so is the content of every session after any list of requests, if the
  -- service goes on.
  pub handle_session_requests-Keeps :
      (newest : Config) (rs : List Request) (m : Main Config)
      → AllChecked m.sessions
      → Keeps (handle_session_requests env newest rs m)
  unfolding handle_session_requests update_config
  handle_session_requests-Keeps newest rs m h =
      handle_all-Keeps rs (update_config env newest m)
        (elim (Bool-cases m.config_stale) [ inl y ↦ rw y h | inr n ↦ rw n h ])
