-- ===== src/RomVerify/Tests.antt =====
-- The theorems about the verifying ROM proxy at a small hash function.
use genode_world.Prelude.{ℕ, ◌≡◌, ◌↔◌, refl, true, false, List, [], ◌∷◌, none, some, take}
use genode_world.RomVerify.Verify.{
  Crypto, Policy, accepted, beyond, check_policy, verify, compare_digest,
}
use genode_world.RomVerify.Verify.Prefix.{
  Confirmed, selected, check_policy-Confirmed, verify_beyond,
}
use genode_world.RomVerify.Requests.{
  Env, Main, Request, create, close, handled, handle_session_requests, handle_all,
  handle_session_request, update_config, find_session, remove_session, delivered, denied, closed,
  session_closed,
}
use genode_world.RomVerify.Requests.Views.{view}
use genode_world.RomVerify.Requests.Spec.{spec_all}
use genode_world.RomVerify.Requests.Refine.{Shows, handle_session_requests-Shows}
use genode_world.RomVerify.Requests.Verified.{AllChecked, Keeps, handle_session_requests-Keeps}

-- The digest of a content is its first four bytes.
abbrev crypto : Crypto
crypto = record {
  sha3 = λ n rom. take n rom;
  sha512 = λ rom. take 4 rom;
  sha256 = λ rom. take 4 rom;
  sha1 = λ rom. take 4 rom;
  decode = λ text. text;
}

abbrev policy : Policy
policy = record {
  sha3_attr = none;
  sha512_attr = none;
  sha256_attr = some (1 ∷ 2 ∷ 3 ∷ 4 ∷ []);
  sha1_attr = none;
}

abbrev rom : List ℕ
rom = 1 ∷ 2 ∷ 3 ∷ 4 ∷ 5 ∷ []

check_policy-Confirmed_example :
    (check_policy crypto policy rom ≡ accepted) ↔ Confirmed crypto rom (selected crypto policy)
check_policy-Confirmed_example = check_policy-Confirmed crypto policy rom

-- An attribute without a digit is confirmed by any content.
abbrev empty_policy : Policy
empty_policy = record policy { sha256_attr = some [] }

empty_accepted : (content : List ℕ) → check_policy crypto empty_policy content ≡ accepted
empty_accepted content =
    (check_policy-Confirmed crypto empty_policy content).1
      (record { hash = λ r. take 4 r; attr = [] }, refl, (_, refl))

verify_beyond_at_sample : verify crypto crypto.sha256 (1 ∷ 2 ∷ 3 ∷ 4 ∷ 9 ∷ []) rom ≡ beyond
verify_beyond_at_sample = verify_beyond crypto crypto.sha256 (1 ∷ 2 ∷ 3 ∷ 4 ∷ 9 ∷ []) rom [] 9 refl

-- Arguments are the content of the ROM module that the parent gives for them.
abbrev env : Env Policy
env = record { crypto = crypto; policy = λ config args. some config; open_rom = λ args. some args }

abbrev start : Main Policy
start = record { config = empty_policy; config_stale = true; sessions = []; events = [] }

abbrev create_1 : Request
create_1 = record { id_attr = some 1; kind = create; args = some rom; ram_quota = 0 }

abbrev create_2 : Request
create_2 = record {
  id_attr = some 2;
  kind = create;
  args = some (7 ∷ 7 ∷ 7 ∷ 7 ∷ []);
  ram_quota = 0;
}

abbrev close_1 : Request
close_1 = record { id_attr = some 1; kind = close; args = none; ram_quota = 0 }

abbrev requests : List Request
requests = create_1 ∷ create_2 ∷ close_1 ∷ []

-- The first session is delivered and closed, and the second one is denied.
run :
    handle_session_requests env policy requests start
    ≡ handled (record {
      config = policy;
      config_stale = false;
      sessions = [];
      events = session_closed 1 ∷ closed 1 ∷ denied 2 ∷ delivered 1 ∷ [];
    })
unfolding handle_session_requests handle_all handle_session_request update_config find_session
    remove_session check_policy verify compare_digest
run = refl

handle_session_requests-Shows_example :
    Shows env policy
      (handle_session_requests env policy requests start)
      (spec_all env policy requests (view []))
handle_session_requests-Shows_example = handle_session_requests-Shows env policy requests start tt

-- A service that has a session with another content and checks this one against its beginning.
abbrev held_rom : List ℕ
held_rom = 7 ∷ 7 ∷ 7 ∷ 7 ∷ 9 ∷ []

abbrev held_policy : Policy
held_policy = record policy { sha256_attr = some (7 ∷ 7 ∷ []) }

abbrev serving : Main Policy
serving = record {
  config = held_policy;
  config_stale = true;
  sessions = record { id = 3; rom = held_rom } ∷ [];
  events = delivered 3 ∷ [];
}

held : AllChecked env serving.sessions
unfolding check_policy verify compare_digest
held = (
  record {
    config = held_policy;
    args = held_rom;
    policy = held_policy;
    has_policy = refl;
    opened = refl;
    passed = refl;
  },
  tt,
)

-- A session is added, another one is denied, and the held one stays.
serving_run :
    handle_session_requests env policy (create_1 ∷ create_2 ∷ []) serving
    ≡ handled (record {
      config = policy;
      config_stale = false;
      sessions = record { id = 1; rom = rom } ∷ record { id = 3; rom = held_rom } ∷ [];
      events = denied 2 ∷ delivered 1 ∷ delivered 3 ∷ [];
    })
unfolding handle_session_requests handle_all handle_session_request update_config find_session
    remove_session check_policy verify compare_digest
serving_run = refl

handle_session_requests-Keeps_example :
    Keeps env (handle_session_requests env policy (create_1 ∷ create_2 ∷ []) serving)
handle_session_requests-Keeps_example =
    handle_session_requests-Keeps env policy (create_1 ∷ create_2 ∷ []) serving held
