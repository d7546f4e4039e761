-- ===== src/Config/Validate.antt =====
-- src/config/validate.rs: the rules that an effective config must follow.
pub mod Duplicates
pub mod Clashes
pub mod Warnings
pub mod Distinct
pub mod Structure
pub mod Compatible
pub mod Valid
use Prim.Native.Char.{code}
use Prim.Native.String.{String, ◌++◌ as append, len}
use text.Mathlib.Text.{starts_with}
use kiss_tnc_bridge.Prelude.{
  ℕ, Bool, true, false, not, ◌&&◌, ◌||◌, List, [], ◌∷◌, ◌++◌, Option, none, some, ◌==◌, ltb,
  if◌then◌else◌, is_nil, any_of, keep_if, flat_map, length,
}
use kiss_tnc_bridge.Prelude.Decide.{String-discrete, equal}
use kiss_tnc_bridge.Config.Addresses.{
  Mac, Mac-discrete, AdapterSel, AdapterSel-discrete, Listen, addr, interface, is_unspecified,
  is_loopback, conflicts_with,
}
use kiss_tnc_bridge.Config.Model.{
  Config, Adapter, Tnc, Spp, Ble, SerialDevice, Bridge, Port, PortKind, tcp_client, tcp_server,
  ble_server, spp_client, ble_client, serial, TcpServer, BleServer, TncPort,
}
use kiss_tnc_bridge.Config.Ports.{tnc_id, tnc_ports, app_ports}
use kiss_tnc_bridge.Config.Problem.{
  Message, duplicate_adapter_id, duplicate_tnc_id, duplicate_bridge_id, duplicate_port_id,
  mac_taken, spp_taken, ble_taken, path_taken, name_taken, one_tnc_port_needed, app_port_needed,
  public_name_taken, tnc_taken, listen_taken, adapter_taken, long_public_name, unstable_path,
  absent_device, open_to_all, announced_loopback, absent_interface, no_bridge_enabled, no_bridges,
  Problem, Report,
}
use kiss_tnc_bridge.Config.Validate.Duplicates.{
  Reach, Reach-discrete, was_seen, seen_as, taken, taken_if, with_key, adapter_errors, tnc_errors,
  bridge_errors, port_id_errors, structure_errors, spp_key, ble_key, path_key,
}
use kiss_tnc_bridge.Config.Validate.Clashes.{
  tnc_clash, kind_clash, port_clash, bridge_clash, clashes, enabled_bridges,
}
use kiss_tnc_bridge.Config.Validate.Warnings.{Host, warnings_of}

unfoldable pub errors_of : {N : Type 0} → Config N → List Problem
unfolding adapter_errors tnc_errors bridge_errors clashes enabled_bridges
errors_of c =
    adapter_errors [] [] c.adapters
    ++ tnc_errors [] [] [] [] c.tncs
    ++ bridge_errors [] [] c.bridges
    ++ clashes (enabled_bridges c)

unfoldable pub validate : {N : Type 0} → Host → Config N → Bool → Report
unfolding errors_of warnings_of
validate h c checked = record { errors = errors_of c; warnings = warnings_of h checked c }
