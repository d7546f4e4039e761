-- ===== src/Reconcile/Bridges.antt =====
-- src/reconcile.rs: `plan` and the comparison of bridges. A map by bridge id is a list of entries in
-- the order of their ids.
use Prim.Native.String.{String}
use text.Mathlib.Text.{◌==◌ as str_eq}
use kiss_tnc_bridge.Prelude.{
  Bool, false, not, ◌&&◌, ◌||◌, List, [], ◌∷◌, ◌++◌, Option, none, some, if◌then◌else◌, any_of,
  all_of, is_nil, is_some,
}
use kiss_tnc_bridge.Prelude.Decide.{String-discrete, equal}
use kiss_tnc_bridge.Prelude.Maps.{put, get}
use kiss_tnc_bridge.Config.Networks.{Networks}
use kiss_tnc_bridge.Config.Model.{Port, Bridge, Config, AppParams-discrete}
use kiss_tnc_bridge.Reconcile.Report.{
  unchanged, updated, started, stopped, PortPlan, BridgePlan, Plan, is_unchanged,
}
use kiss_tnc_bridge.Reconcile.Ports.{Runtime, sessions_of, tnc_active, ids}
use kiss_tnc_bridge.Reconcile.Compare.{compare_port}

unfoldable pub change_if : Bool → String → List String
change_if differs name = if differs then name ∷ [] else []

module _ {N : Type 0} where
  unfoldable pub started_port : Port N → PortPlan
  started_port p = record {
    id = p.id;
    action = started;
    changes = [];
    disconnects = [];
    drops_tnc_link = false;
  }

  unfoldable pub started_ports : List (Port N) → List PortPlan
  unfolding started_port
  started_ports [] = []
  started_ports (p ∷ ps) = started_port p ∷ started_ports ps

  -- `ports.iter().find(|p| p.id == id)`
  unfoldable pub find_port : String → List (Port N) → Option (Port N)
  find_port id [] = none
  find_port id (p ∷ ps) = if str_eq p.id id then some p else find_port id ps

  -- `running`: the enabled bridges; a later one of the same id takes the place of an earlier.
  unfoldable pub running_from :
      List (String × Bridge N) → List (Bridge N) → List (String × Bridge N)
  unfolding put
  running_from m [] = m
  running_from m (b ∷ bs) = running_from (if b.enabled then put b.id b m else m) bs

  unfoldable pub running : Config N → List (String × Bridge N)
  unfolding running_from
  running c = running_from [] c.bridges

module _ {N : Type 0} (rt : Runtime) where
  unfoldable pub stopped_port : String → Port N → PortPlan
  unfolding ids sessions_of
  stopped_port bridge p = record {
    id = p.id;
    action = stopped;
    changes = [];
    disconnects = ids (sessions_of rt bridge p.id);
    drops_tnc_link = false;
  }

  unfoldable pub stopped_ports : String → List (Port N) → List PortPlan
  unfolding stopped_port
  stopped_ports bridge [] = []
  stopped_ports bridge (p ∷ ps) = stopped_port bridge p ∷ stopped_ports bridge ps

  unfoldable pub stop_bridge : Bridge N → BridgePlan
  unfolding stopped_ports tnc_active
  stop_bridge b =
      let ports = stopped_ports b.id b.ports in
      record {
        id = b.id;
        action = stopped;
        changes = [];
        ports = ports;
        stops_in_use = tnc_active rt b.id || any_of (λ p. not (is_nil p.disconnects)) ports;
      }

  -- The first loop of `compare_bridge`, over the old ports that are no longer there.
  unfoldable pub gone_ports : String → List (Port N) → List (Port N) → List PortPlan
  unfolding stopped_port find_port
  gone_ports bridge [] new = []
  gone_ports bridge (p ∷ ps) new =
      let rest = gone_ports bridge ps new in
      if is_some (find_port p.id new) then rest else stopped_port bridge p ∷ rest

module _ (nets : Networks) (rt : Runtime) where
  -- Its second loop, over the new ports.
  unfoldable pub kept_ports : String → List (Port nets.Net) → List (Port nets.Net) → List PortPlan
  unfolding find_port started_port compare_port
  kept_ports bridge old [] = []
  kept_ports bridge old (p ∷ ps) =
      elim (find_port p.id old) [ some o ↦ compare_port nets rt bridge o p | none ↦ started_port p ]
      ∷ kept_ports bridge old ps

  unfoldable pub compare_bridge : Bridge nets.Net → Bridge nets.Net → BridgePlan
  unfolding change_if gone_ports kept_ports is_unchanged equal
  compare_bridge old new =
      let changes =
        change_if (not (equal String-discrete old.name new.name)) "name"
        ++ change_if (not (equal String-discrete old.public_name new.public_name)) "public_name"
        ++ change_if (not (equal AppParams-discrete old.app_params new.app_params)) "app_params" in
      let ports =
        gone_ports rt old.id old.ports new.ports ++ kept_ports old.id old.ports new.ports in
      record {
        id = new.id;
        action =
            if is_nil changes && all_of (λ p. is_unchanged p.action) ports
            then unchanged
            else updated;
        changes = changes;
        ports = ports;
        stops_in_use = false;
      }

  -- The loops of `plan`: bridges that stop, and bridges that stay or start.
  unfoldable pub stopping :
      List (String × Bridge nets.Net) → List (String × Bridge nets.Net) → List BridgePlan
  unfolding get stop_bridge
  stopping [] after = []
  stopping ((id, b) ∷ before) after =
      let rest = stopping before after in
      if is_some (get id after) then rest else stop_bridge rt b ∷ rest

  unfoldable pub staying :
      List (String × Bridge nets.Net) → List (String × Bridge nets.Net) → List BridgePlan
  unfolding get compare_bridge started_ports
  staying before [] = []
  staying before ((id, b) ∷ after) =
      elim (get id before) [
        | some o ↦ compare_bridge o b
        | none ↦ record {
          id = id;
          action = started;
          changes = [];
          ports = started_ports b.ports;
          stops_in_use = false;
        }
      ]
      ∷ staying before after

  unfoldable pub plan : Config nets.Net → Config nets.Net → Plan
  unfolding running stopping staying change_if equal
  plan old new = record {
    global =
        change_if (not (equal String-discrete old.global.log_level new.global.log_level))
          "log_level"
        ++ change_if (not (equal String-discrete old.control.group new.control.group))
            "control.group";
    bridges = stopping (running old) (running new) ++ staying (running old) (running new);
  }
