-- ===== src/Reconcile/Report.antt =====
-- src/reconcile.rs: what a reload would do, as a report, and what of that is disruptive.
use Prim.Native.String.{String, ◌++◌ as append}
use kiss_tnc_bridge.Prelude.{
  flat_map, Bool, true, false, List, [], ◌∷◌, ◌++◌, ◌&&◌, all_of, is_nil, not, if◌then◌else◌,
}
use kiss_tnc_bridge.Bridge.State.{SessionId}

pub data Action : Type 0 where
  unchanged updated restarted started stopped : Action

pub record PortPlan : Type 0 where
  pub id : String
  pub action : Action
  pub changes : List String
  pub disconnects : List SessionId
  pub drops_tnc_link : Bool

pub record BridgePlan : Type 0 where
  pub id : String
  pub action : Action
  pub changes : List String
  pub ports : List PortPlan
  pub stops_in_use : Bool

pub record Plan : Type 0 where
  pub global : List String
  pub bridges : List BridgePlan

-- `action == Action::Unchanged`
unfoldable pub is_unchanged : Action → Bool
is_unchanged unchanged = true
is_unchanged _ = false

-- `Plan::is_noop`
unfoldable pub is_noop : Plan → Bool
is_noop p = is_nil p.global && all_of (λ b. is_unchanged b.action) p.bridges

-- `Plan::disconnects`
unfoldable pub disconnects : Plan → List SessionId
unfolding flat_map
disconnects p = flat_map (λ b. flat_map (λ q. q.disconnects) b.ports) p.bridges

-- The `Display` of a session.
unfoldable pub show_session : SessionId → String
show_session s = append s.port (append "/" s.peer)

unfoldable pub session_phrase : BridgePlan → SessionId → List String
unfolding show_session
session_phrase b s = append "disconnect session " (append b.id (append "/" (show_session s))) ∷ []

unfoldable pub port_disruptions : BridgePlan → PortPlan → List String
unfolding flat_map session_phrase
port_disruptions b p =
    flat_map (session_phrase b) p.disconnects
    ++ (if p.drops_tnc_link
        then append "restart TNC port "
            (append b.id (append "/" (append p.id " while its link is up")))
          ∷ []
        else [])

unfoldable pub bridge_disruptions : BridgePlan → List String
unfolding flat_map port_disruptions
bridge_disruptions b =
    (if b.stops_in_use then append "stop bridge " (append b.id " while it's in use") ∷ [] else [])
    ++ flat_map (port_disruptions b) b.ports

-- `Plan::disruptions`
unfoldable pub disruptions : Plan → List String
unfolding flat_map bridge_disruptions
disruptions p = flat_map bridge_disruptions p.bridges

-- `Plan::disruptive`
unfoldable pub disruptive : Plan → Bool
unfolding disruptions
disruptive p = not (is_nil (disruptions p))

-- `join_and`: all but the last, with commas, and the last.
unfoldable pub join_last : String → List String → String
join_last sofar [] = sofar
join_last sofar (last ∷ []) = append sofar (append " and " last)
join_last sofar (next ∷ more ∷ rest) = join_last (append sofar (append ", " next)) (more ∷ rest)

unfoldable pub join_and : List String → String
unfolding join_last
join_and [] = ""
join_and (one ∷ rest) = join_last one rest

-- `Plan::describe_disruptions`
unfoldable pub describe_disruptions : Plan → String
unfolding join_and disruptions
describe_disruptions p = join_and (disruptions p)
