-- ===== src/Config/Ports.antt =====
-- src/config/resolve.rs: what a bridge and its ports say of themselves.
use Prim.Native.String.{String}
use kiss_tnc_bridge.Prelude.{
  ℕ, zero, suc, List, [], ◌∷◌, ◌++◌, Option, none, some, keep_if, length, if◌then◌else◌, is_nil,
}
use kiss_tnc_bridge.Prelude.Decide.{equal}
use kiss_tnc_bridge.Config.Settings.{tnc, app, ConnectPolicy}
use kiss_tnc_bridge.Config.Model.{
  Port, PortKind, tcp_client, tcp_server, ble_server, spp_client, ble_client, serial, Bridge,
  Role-discrete,
}

module _ {N : Type 0} where
  unfoldable pub type_name : Port N → String
  type_name p = elim p.kind [
    | tcp_client k ↦ "tcp-client"
    | tcp_server k ↦ "tcp-server"
    | ble_server k ↦ "ble-server"
    | spp_client k ↦ "spp-client"
    | ble_client k ↦ "ble-client"
    | serial k ↦ "serial"
  ]

  -- `Port::tnc_id`, of its kind.
  unfoldable pub tnc_id : PortKind N → Option String
  tnc_id (spp_client k) = some k.tnc
  tnc_id (ble_client k) = some k.tnc
  tnc_id (serial k) = some k.tnc
  tnc_id _ = none

  -- `Port::connect_policy`, of its kind.
  unfoldable pub connect_policy : PortKind N → Option (ConnectPolicy × ℕ)
  connect_policy (tcp_client k) = some (k.connect, k.idle_timeout)
  connect_policy (spp_client k) = some (k.connect, k.idle_timeout)
  connect_policy (ble_client k) = some (k.connect, k.idle_timeout)
  connect_policy (serial k) = some (k.connect, k.idle_timeout)
  connect_policy (tcp_server k) = none
  connect_policy (ble_server k) = none

  unfoldable pub tnc_ports : Bridge N → List (Port N)
  unfolding equal Role-discrete
  tnc_ports b = keep_if (λ p. equal Role-discrete p.role tnc) b.ports

  unfoldable pub app_ports : Bridge N → List (Port N)
  unfolding equal Role-discrete
  app_ports b = keep_if (λ p. equal Role-discrete p.role app) b.ports

-- What `Bridge::incomplete` names.
pub data Missing : Type 0 where
  no_tnc_port : Missing
  tnc_ports_beyond_one : ℕ → Missing
  no_app_port : Missing

unfoldable pub missing_tnc : ℕ → List Missing
missing_tnc zero = no_tnc_port ∷ []
missing_tnc (suc zero) = []
missing_tnc (suc (suc n)) = tnc_ports_beyond_one (suc (suc n)) ∷ []

unfoldable pub incomplete : {N : Type 0} → Bridge N → List Missing
unfolding missing_tnc tnc_ports app_ports
incomplete b =
    missing_tnc (length (tnc_ports b)) ++ (if is_nil (app_ports b) then no_app_port ∷ [] else [])
