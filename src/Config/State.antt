-- ===== src/Config/State.antt =====
-- src/config/state.rs: the runtime state, and `StateStore::update`. A map by bridge id is a list of
-- entries in the order of their ids. Whether a write of the file succeeds is asked of the host.
use Prim.Native.String.{String}
use text.Mathlib.Text.{◌==◌ as str_eq}
use kiss_tnc_bridge.Prelude.{
  Bool, ◌&&◌, not, List, Option, none, some, if◌then◌else◌, is_some, keep_if,
}
use kiss_tnc_bridge.Prelude.Decide.{String-discrete, List-discrete, equal}
use kiss_tnc_bridge.Prelude.Maps.{put, get, change_key}

pub record BridgeState : Type 0 where
  pub enabled : Option Bool
  pub public_name : Option String
  pub public_name_configured : Option String

-- `State`, the field `bridges` of it.
abbrev pub State : Type 0
State = List (String × BridgeState)

-- `BridgeState::default`
abbrev pub no_state : BridgeState
no_state = record { enabled = none; public_name = none; public_name_configured = none }

unfoldable pub has_nothing : BridgeState → Bool
has_nothing b =
    not (is_some b.enabled) && not (is_some b.public_name) && not (is_some b.public_name_configured)

unfoldable pub adjusted_public_name : State → String → String → Option String
unfolding get
adjusted_public_name s bridge configured = elim (get bridge s) [
  | none ↦ none
  | some b ↦ elim b.public_name [
    | none ↦ none
    | some name ↦ elim b.public_name_configured [
      | none ↦ none
      | some from ↦ if str_eq from configured then some name else none
    ]
  ]
]

-- `entry(…).or_default()`, changed.
unfoldable pub at_entry : String → (BridgeState → BridgeState) → State → State
unfolding put get change_key
at_entry bridge f s = elim (get bridge s) [
  | none ↦ put bridge (f no_state) s
  | some b ↦ change_key bridge f s
]

-- `retain`
unfoldable pub without_empty : State → State
unfolding has_nothing
without_empty s = keep_if (λ e. not (has_nothing e.1)) s

unfoldable pub set_adjusted_public_name : String → String → String → State → State
unfolding at_entry
set_adjusted_public_name bridge configured name =
    at_entry bridge
      (λ b. record b { public_name = some name; public_name_configured = some configured })

unfoldable pub enabled_override : State → String → Option Bool
unfolding get
enabled_override s bridge = elim (get bridge s) [ none ↦ none | some b ↦ b.enabled ]

unfoldable pub set_enabled_override : String → Option Bool → State → State
unfolding at_entry without_empty
set_enabled_override bridge enabled s =
    without_empty (at_entry bridge (λ b. record b { enabled = enabled }) s)

unfoldable pub clear_adjusted_public_name : String → State → State
unfolding change_key without_empty
clear_adjusted_public_name bridge s =
    without_empty
      (change_key bridge (λ b. record b { public_name = none; public_name_configured = none }) s)

unfoldable pub State-discrete : Discrete State
unfolding List-discrete String-discrete
State-discrete = hlevel (String-discrete)

-- `StateStore::update`: the state behind it, which is the one before if the write fails.
unfoldable pub update : (State → Bool) → (State → State) → State → State
unfolding equal State-discrete
update can_write f s =
    if equal State-discrete (f s) s then s else if can_write (f s) then f s else s
