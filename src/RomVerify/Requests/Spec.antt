-- ===== src/RomVerify/Requests/Spec.antt =====
-- The specification of the service: a map from session IDs to the content that each session serves.
use genode_world.Prelude.{ℕ, ◌==◌, if◌then◌else◌, List, [], ◌∷◌, Option, none, some}
use genode_world.RomVerify.Verify.{Policy, Verdict, accepted, service_denied, beyond, check_policy}
use genode_world.RomVerify.Requests.{Env, Kind, create, upgrade, close, unknown, Request}

abbrev pub View : Type 0
View = ℕ → Option (List ℕ)

abbrev pub assign : ℕ → Option (List ℕ) → View → View
assign id rom v j = if id == j then rom else v j

-- `none` is the end of the service.
abbrev pub admit : ℕ → List ℕ → View → Verdict → Option View
admit id rom v accepted = some (assign id (some rom) v)
admit id rom v service_denied = some v
admit id rom v beyond = none

-- Only an ID that serves a ROM module can be upgraded or closed.
abbrev pub if_open : Option (List ℕ) → View → Option View
if_open none v = none
if_open (some rom) v = some v

abbrev pub spec_next : (View → Option View) → Option View → Option View
spec_next f none = none
spec_next f (some v) = f v

module _ {Config : Type 0} (env : Env Config) where
  -- A ROM module is admitted for a free ID if it has a policy and passes its check.
  abbrev pub offer : ℕ → View → Option Policy → Option (List ℕ) → Option (List ℕ) → Option View
  offer id v none rom taken = some v
  offer id v (some policy) none taken = some v
  offer id v (some policy) (some rom) (some other) = some v
  offer id v (some policy) (some rom) none = admit id rom v (check_policy env.crypto policy rom)

  abbrev pub spec_create : Config → ℕ → View → Option (List ℕ) → Option View
  spec_create config id v none = some v
  spec_create config id v (some args) =
      offer id v (env.policy config args) (env.open_rom args) (v id)

  abbrev pub spec_dispatch : Config → Kind → ℕ → Request → View → Option View
  spec_dispatch config create id r v = spec_create config id v r.args
  spec_dispatch config upgrade id r v = if_open (v id) v
  spec_dispatch config close id r v = if_open (v id) (assign id none v)
  spec_dispatch config unknown id r v = some v

  abbrev pub spec_with_id : Config → Option ℕ → Request → View → Option View
  spec_with_id config none r v = some v
  spec_with_id config (some id) r v = spec_dispatch config r.kind id r v

  -- The specification of a request.
  abbrev pub spec_request : Config → Request → View → Option View
  spec_request config r v = spec_with_id config r.id_attr r v

  -- The specification of a list of requests.
  abbrev pub spec_all : Config → List Request → View → Option View
  spec_all config [] v = some v
  spec_all config (r ∷ rs) v = spec_next (spec_all config rs) (spec_request config r v)
