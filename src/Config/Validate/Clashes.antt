-- ===== src/Config/Validate/Clashes.antt =====
-- src/config/validate.rs: conflicts among enabled bridges.
use Prim.Native.String.{String, ◌++◌ as append}
use kiss_tnc_bridge.Prelude.{List, [], ◌∷◌, ◌++◌, none, some, keep_if, flat_map}
use kiss_tnc_bridge.Prelude.Decide.{String-discrete, equal}
use kiss_tnc_bridge.Config.Problem.{problem_if}
use kiss_tnc_bridge.Config.Addresses.{AdapterSel-discrete, conflicts_with}
use kiss_tnc_bridge.Config.Model.{Config, Bridge, Port, PortKind, tcp_server, ble_server}
use kiss_tnc_bridge.Config.Ports.{tnc_id}
use kiss_tnc_bridge.Config.Problem.{
  public_name_taken, tnc_taken, listen_taken, adapter_taken, Problem,
}

-- Conflicts of two ports, of the bridges `a` and `b`.
unfoldable pub tnc_clash : {N : Type 0} → Bridge N → Port N → Bridge N → Port N → List Problem
unfolding problem_if tnc_id equal String-discrete
tnc_clash a pa b pb = elim (tnc_id pa.kind) [
  | some ta ↦ elim (tnc_id pb.kind) [
    | some tb ↦
        problem_if (equal String-discrete ta tb)
          (append "bridge " (append b.id (append " port " pb.id))) (tnc_taken tb a.id pa.id)
    | none ↦ []
  ]
  | none ↦ []
]

unfoldable pub kind_clash :
    {N : Type 0} → PortKind N → PortKind N → String → String → String → List Problem
unfolding problem_if conflicts_with equal AdapterSel-discrete
kind_clash (tcp_server a) (tcp_server b) object bridge port =
    problem_if (conflicts_with a.listen b.listen) object
      (listen_taken b.listen bridge port a.listen)
kind_clash (ble_server a) (ble_server b) object bridge port =
    problem_if (equal AdapterSel-discrete a.adapter b.adapter) object
      (adapter_taken b.adapter bridge port)
kind_clash _ _ object bridge port = []

unfoldable pub port_clash : {N : Type 0} → Bridge N → Port N → Bridge N → Port N → List Problem
unfolding tnc_clash kind_clash
port_clash a pa b pb =
    tnc_clash a pa b pb
    ++ kind_clash pa.kind pb.kind (append "bridge " (append b.id (append " port " pb.id))) a.id
        pa.id

unfoldable pub bridge_clash : {N : Type 0} → Bridge N → Bridge N → List Problem
unfolding problem_if port_clash flat_map equal String-discrete
bridge_clash a b =
    problem_if (equal String-discrete a.public_name b.public_name) (append "bridge " b.id)
      (public_name_taken b.public_name a.id)
    ++ flat_map (λ pa. flat_map (port_clash a pa b) b.ports) a.ports

-- Each enabled bridge against those behind it.
unfoldable pub clashes : {N : Type 0} → List (Bridge N) → List Problem
unfolding bridge_clash flat_map
clashes [] = []
clashes (a ∷ bs) = flat_map (bridge_clash a) bs ++ clashes bs

unfoldable pub enabled_bridges : {N : Type 0} → Config N → List (Bridge N)
enabled_bridges c = keep_if (λ b. b.enabled) c.bridges
