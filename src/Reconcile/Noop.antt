-- ===== src/Reconcile/Noop.antt =====
-- src/reconcile.rs: a plan with nothing to do disrupts nothing.
use Prim.Native.String.{String}
use kiss_tnc_bridge.Prelude.{
  flat_map, All-map, Bool, true, false, ◌&&◌, List, [], ◌∷◌, ◌++◌, ◌≡◌, refl, arith, is_some,
  all_of, Bool-cases, if◌then◌else◌, Option-cases, inl, inr, All, All-append,
}
use kiss_tnc_bridge.Config.Networks.{Networks}
use kiss_tnc_bridge.Config.Model.{Port, Bridge, Config}
use kiss_tnc_bridge.Reconcile.Report.{
  unchanged, updated, PortPlan, BridgePlan, is_unchanged, is_noop, disconnects, disruptions,
  disruptive, bridge_disruptions, port_disruptions,
}
use kiss_tnc_bridge.Reconcile.Ports.{Runtime}
use kiss_tnc_bridge.Reconcile.Bridges.{
  compare_bridge, plan, stopped_port, gone_ports, kept_ports, find_port, started_port, stopping,
  staying, stop_bridge, running,
}
use kiss_tnc_bridge.Prelude.Maps.{get}
use kiss_tnc_bridge.Reconcile.Quiet.{Undisturbed, compare_port-Undisturbed}

-- `P`, if the entry is reported as unchanged.
abbrev Calm : PortPlan → Type 0
Calm p = is_unchanged p.action ≡ true → Undisturbed p

pub record Quiet (b : BridgePlan) : Type 0 where
  pub ports : All Undisturbed b.ports
  pub unused : b.stops_in_use ≡ false

abbrev CalmBridge : BridgePlan → Type 0
CalmBridge b = is_unchanged b.action ≡ true → Quiet b

all_of-All :
    {A : Type 0} (f : A → Bool) (P : A → Type 0) (xs : List A)
    → all_of f xs ≡ true
    → All (λ x. f x ≡ true → P x) xs
    → All P xs
all_of-All f P [] e h = tt
all_of-All f P (x ∷ xs) e h = (h.0 (ground arith), all_of-All f P xs (ground arith) h.1)

flat_map-nil :
    {A B : Type 0} (f : A → List B) (xs : List A) → All (λ x. f x ≡ []) xs → flat_map f xs ≡ []
unfolding flat_map
flat_map-nil f [] h = refl
flat_map-nil f (x ∷ xs) h = rw (h.0, flat_map-nil f xs h.1) refl

gone_ports-Calm :
    {N : Type 0} (rt : Runtime) (bridge : String) (old new : List (Port N))
    → All Calm (gone_ports rt bridge old new)
unfolding gone_ports stopped_port is_unchanged
gone_ports-Calm rt bridge [] new = tt
gone_ports-Calm rt bridge (p ∷ ps) new = elim (Bool-cases (is_some (find_port p.id new))) [
  | inl e ↦ rw e (gone_ports-Calm rt bridge ps new)
  | inr e ↦ rw e (λ u. cc (u), gone_ports-Calm rt bridge ps new)
]

unchanged_if : (a b : Bool) → is_unchanged (if a && b then unchanged else updated) ≡ true → b ≡ true
unfolding is_unchanged
unchanged_if true true e = refl
unchanged_if true false e = e
unchanged_if false b e = cc (e)

module _ (nets : Networks) (rt : Runtime) where
  kept_ports-Calm :
      (bridge : String) (old ps : List (Port nets.Net))
      → All Calm (kept_ports nets rt bridge old ps)
  unfolding kept_ports started_port is_unchanged
  kept_ports-Calm bridge old [] = tt
  kept_ports-Calm bridge old (p ∷ ps) = elim (Option-cases (find_port p.id old)) [
    | inl e ↦ rw e (λ u. cc (u), kept_ports-Calm bridge old ps)
    | inr (o, e) ↦ rw e (compare_port-Undisturbed nets rt bridge o p, kept_ports-Calm bridge old ps)
  ]

  compare_bridge-Calm : (old new : Bridge nets.Net) → CalmBridge (compare_bridge nets rt old new)
  unfolding compare_bridge
  compare_bridge-Calm old new u =
      let ports =
        gone_ports rt old.id old.ports new.ports ++ kept_ports nets rt old.id old.ports new.ports in
      record {
        ports =
            all_of-All (λ p. is_unchanged p.action) Undisturbed ports (unchanged_if _ _ u)
              (All-append Calm (gone_ports rt old.id old.ports new.ports) _
                (gone_ports-Calm rt old.id old.ports new.ports)
                (kept_ports-Calm old.id old.ports new.ports));
        unused = refl;
      }

  stopping-Calm :
      (before after : List (String × Bridge nets.Net))
      → All CalmBridge (stopping nets rt before after)
  unfolding stopping stop_bridge is_unchanged
  stopping-Calm [] after = tt
  stopping-Calm ((id, b) ∷ before) after = elim (Bool-cases (is_some (get id after))) [
    | inl e ↦ rw e (stopping-Calm before after)
    | inr e ↦ rw e (λ u. cc (u), stopping-Calm before after)
  ]

  staying-Calm :
      (before after : List (String × Bridge nets.Net))
      → All CalmBridge (staying nets rt before after)
  unfolding staying is_unchanged
  staying-Calm before [] = tt
  staying-Calm before ((id, b) ∷ after) = elim (Option-cases (get id before)) [
    | inl e ↦ rw e (λ u. cc (u), staying-Calm before after)
    | inr (o, e) ↦ rw e (compare_bridge-Calm o b, staying-Calm before after)
  ]

port_disruptions-nil : (b : BridgePlan) (p : PortPlan) → Undisturbed p → port_disruptions b p ≡ []
unfolding port_disruptions flat_map
port_disruptions-nil b p u = rw (u.stays, u.linked) refl

bridge_disruptions-nil : (b : BridgePlan) → Quiet b → bridge_disruptions b ≡ []
unfolding bridge_disruptions
bridge_disruptions-nil b q = rw q.unused (
    flat_map-nil (port_disruptions b) b.ports
      (All-map Undisturbed _ (λ p u. port_disruptions-nil b p u) b.ports q.ports))

bridge_disconnects-nil : (b : BridgePlan) → Quiet b → flat_map (λ p. p.disconnects) b.ports ≡ []
bridge_disconnects-nil b q =
    flat_map-nil _ b.ports (All-map Undisturbed _ (λ p u. u.stays) b.ports q.ports)

-- If a plan says that there is nothing to do, by its report of what is to change, then it
-- disconnects no session and disrupts nothing, whatever the configs and the state of the daemon.
pub is_noop-disruptive :
    (nets : Networks) (rt : Runtime) (old new : Config nets.Net)
    → is_noop (plan nets rt old new) ≡ true
    → (disconnects (plan nets rt old new) ≡ []) × (disruptive (plan nets rt old new) ≡ false)
unfolding is_noop disconnects disruptive disruptions plan
is_noop-disruptive nets rt old new e =
    let bs = (plan nets rt old new).bridges in
    let calm =
      All-append CalmBridge (stopping nets rt (running old) (running new)) _
        (stopping-Calm nets rt (running old) (running new))
        (staying-Calm nets rt (running old) (running new)) in
    let quiet = all_of-All (λ b. is_unchanged b.action) Quiet bs (ground arith) calm in
    (
      flat_map-nil _ bs (All-map Quiet _ (λ b q. bridge_disconnects-nil b q) bs quiet),
      rw
          (flat_map-nil bridge_disruptions bs
            (All-map Quiet _ (λ b q. bridge_disruptions-nil b q) bs quiet))
          refl,
    )
