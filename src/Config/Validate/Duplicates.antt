-- ===== src/Config/Validate/Duplicates.antt =====
-- src/config/validate.rs: duplicate definitions, and the structure of a bridge. A set or a map of
-- what was seen is the list of it, latest first.
use Prim.Native.String.{String, ◌++◌ as append}
use kiss_tnc_bridge.Prelude.{
  Bool, false, not, ◌&&◌, ◌||◌, List, [], ◌∷◌, ◌++◌, Option, none, some, ◌==◌, if◌then◌else◌,
  length,
}
use kiss_tnc_bridge.Prelude.Decide.{String-discrete, equal}
use kiss_tnc_bridge.Config.Problem.{problem_if}
use kiss_tnc_bridge.Config.Addresses.{Mac, Mac-discrete, AdapterSel, AdapterSel-discrete}
use kiss_tnc_bridge.Config.Model.{Adapter, Tnc, Bridge, Port}
use kiss_tnc_bridge.Config.Ports.{tnc_ports, app_ports}
use kiss_tnc_bridge.Config.Problem.{
  Message, duplicate_adapter_id, duplicate_tnc_id, duplicate_bridge_id, duplicate_port_id,
  mac_taken, spp_taken, ble_taken, path_taken, name_taken, one_tnc_port_needed, app_port_needed,
  Problem,
}

-- An adapter with an address, which a TNC may be known by.
abbrev pub Reach : Type 0
Reach = Mac × AdapterSel

unfoldable pub Reach-discrete : Discrete Reach
Reach-discrete = hlevel (Mac-discrete, AdapterSel-discrete)

module _ {K : Type 0} (d : Discrete K) where
  -- `!seen.insert(k)`
  unfoldable pub was_seen : K → List K → Bool
  unfolding equal
  was_seen k [] = false
  was_seen k (j ∷ seen) = equal d j k || was_seen k seen

  -- `seen.insert(k, id)`, which gives the id that was there.
  unfoldable pub seen_as : K → List (K × String) → Option String
  unfolding equal
  seen_as k [] = none
  seen_as k ((j, id) ∷ seen) = if equal d j k then some id else seen_as k seen

  -- A problem if the key was seen before, under some id.
  unfoldable pub taken : K → List (K × String) → String → (String → Message) → List Problem
  unfolding seen_as
  taken k seen object message = elim (seen_as k seen) [
    | some id ↦ record { object = object; message = message id } ∷ []
    | none ↦ []
  ]

  -- The same behind `if let Some(…)`.
  unfoldable pub taken_if :
      Option K → List (K × String) → String → (K → String → Message) → List Problem
  unfolding taken
  taken_if none seen object message = []
  taken_if (some k) seen object message = taken k seen object (message k)

unfoldable pub with_key : {K : Type 0} → Option K → String → List (K × String) → List (K × String)
with_key none id seen = seen
with_key (some k) id seen = (k, id) ∷ seen

unfoldable pub adapter_errors : List String → List (Mac × String) → List Adapter → List Problem
unfolding problem_if was_seen taken
adapter_errors ids macs [] = []
adapter_errors ids macs (a ∷ rest) =
    let object = append "adapter " a.id in
    problem_if (was_seen String-discrete a.id ids) object duplicate_adapter_id
    ++ taken Mac-discrete a.mac macs object (mac_taken a.mac)
    ++ adapter_errors (a.id ∷ ids) ((a.mac, a.id) ∷ macs) rest

unfoldable pub spp_key : Tnc → Option Reach
spp_key t = elim t.spp [ some s ↦ some (s.address, s.adapter) | none ↦ none ]

unfoldable pub ble_key : Tnc → Option Reach
ble_key t = elim t.ble [ some b ↦ some (b.address, b.adapter) | none ↦ none ]

unfoldable pub path_key : Tnc → Option String
path_key t = elim t.serial [ some s ↦ some s.path | none ↦ none ]

unfoldable pub tnc_errors :
    List String
    → List (Reach × String)
    → List (Reach × String)
    → List (String × String)
    → List Tnc
    → List Problem
unfolding problem_if was_seen taken_if with_key spp_key ble_key path_key
tnc_errors ids spps bles paths [] = []
tnc_errors ids spps bles paths (t ∷ ts) =
    let object = append "tnc " t.id in
    problem_if (was_seen String-discrete t.id ids) object duplicate_tnc_id
    ++ taken_if Reach-discrete (spp_key t) spps object (λ k. spp_taken k.0 k.1)
    ++ taken_if Reach-discrete (ble_key t) bles object (λ k. ble_taken k.0 k.1)
    ++ taken_if String-discrete (path_key t) paths object path_taken
    ++ tnc_errors (t.id ∷ ids) (with_key (spp_key t) t.id spps) (with_key (ble_key t) t.id bles)
        (with_key (path_key t) t.id paths) ts

unfoldable pub port_id_errors : {N : Type 0} → String → List String → List (Port N) → List Problem
unfolding problem_if was_seen
port_id_errors object seen [] = []
port_id_errors object seen (p ∷ ps) =
    problem_if (was_seen String-discrete p.id seen) (append object (append " port " p.id))
      duplicate_port_id
    ++ port_id_errors object (p.id ∷ seen) ps

unfoldable pub structure_errors : {N : Type 0} → String → Bridge N → List Problem
unfolding problem_if tnc_ports app_ports
structure_errors object b =
    problem_if (b.enabled && not (length (tnc_ports b) == 1)) object
      (one_tnc_port_needed (length (tnc_ports b)))
    ++ problem_if (b.enabled && length (app_ports b) == 0) object app_port_needed

unfoldable pub bridge_errors :
    {N : Type 0} → List String → List (String × String) → List (Bridge N) → List Problem
unfolding problem_if was_seen taken port_id_errors structure_errors
bridge_errors ids names [] = []
bridge_errors ids names (b ∷ bs) =
    let object = append "bridge " b.id in
    problem_if (was_seen String-discrete b.id ids) object duplicate_bridge_id
    ++ taken String-discrete b.name names object (name_taken b.name)
    ++ port_id_errors object [] b.ports
    ++ structure_errors object b
    ++ bridge_errors (b.id ∷ ids) ((b.name, b.id) ∷ names) bs
