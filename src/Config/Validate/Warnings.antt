-- ===== src/Config/Validate/Warnings.antt =====
-- src/config/validate.rs: the warnings. What the host has is the parameter `Host`.
use Prim.Native.Char.{code}
use Prim.Native.String.{String, ◌++◌ as append, len}
use text.Mathlib.Text.{starts_with}
use kiss_tnc_bridge.Prelude.{
  ℕ, Bool, true, false, not, ◌&&◌, ◌||◌, List, [], ◌++◌, ◌==◌, ltb, if◌then◌else◌, is_nil, any_of,
  flat_map,
}
use kiss_tnc_bridge.Config.Problem.{problem_if}
use kiss_tnc_bridge.Config.Addresses.{Listen, addr, interface, is_unspecified, is_loopback}
use kiss_tnc_bridge.Config.Model.{Config, Bridge, PortKind, tcp_server, ble_server, serial}
use kiss_tnc_bridge.Config.Problem.{
  long_public_name, unstable_path, absent_device, open_to_all, announced_loopback, absent_interface,
  no_bridge_enabled, no_bridges, Problem,
}
use kiss_tnc_bridge.Config.Validate.Clashes.{enabled_bridges}

-- The file system and the network interfaces.
pub record Host : Type 0 where
  pub path_exists : String → Bool
  -- `libc::if_nametoindex`
  pub if_nametoindex : String → ℕ

abbrev pub max_ble_name_bytes : ℕ
max_ble_name_bytes = 29

unfoldable pub is_stable_serial_path : String → Bool
is_stable_serial_path path =
    starts_with path "/dev/serial/by-id/" || starts_with path "/dev/serial/by-path/"

-- A `CString` takes no text with a NUL in it.
unfoldable pub has_nul : String → Bool
has_nul String.[] = false
has_nul (String.◌∷◌ c s) = code c == 0 || has_nul s

unfoldable pub interface_exists : Host → String → Bool
unfolding has_nul
interface_exists h name = if has_nul name then false else not (h.if_nametoindex name == 0)

unfoldable pub is_ble_server : {N : Type 0} → PortKind N → Bool
is_ble_server (ble_server k) = true
is_ble_server _ = false

unfoldable pub is_absent_interface : Host → Listen → Bool
unfolding interface_exists
is_absent_interface h (interface name port) = not (interface_exists h name)
is_absent_interface h (addr a) = false

unfoldable pub interface_name : Listen → String
interface_name (interface name port) = name
interface_name (addr a) = ""

-- The warnings about one port; `checked` is whether the host is looked at.
unfoldable pub port_warnings :
    {N : Type 0} → Host → Bool → Bool → String → PortKind N → List Problem
unfolding problem_if is_stable_serial_path is_absent_interface interface_name is_unspecified
    is_loopback
port_warnings h checked enabled object (serial k) =
    problem_if (enabled && not (is_stable_serial_path k.reach.path)) object
      (unstable_path k.tnc k.reach.path)
    ++ problem_if (enabled && checked && not (h.path_exists k.reach.path)) object
        (absent_device k.tnc k.reach.path)
port_warnings h checked enabled object (tcp_server k) =
    problem_if (is_unspecified k.listen && is_nil k.allow) object (open_to_all k.listen)
    ++ problem_if (k.announce && is_loopback k.listen) object announced_loopback
    ++ problem_if (checked && enabled && is_absent_interface h k.listen) object
        (absent_interface (interface_name k.listen))
port_warnings h checked enabled object _ = []

unfoldable pub bridge_warnings : {N : Type 0} → Host → Bool → Bridge N → List Problem
unfolding problem_if is_ble_server port_warnings flat_map
bridge_warnings h checked b =
    let object = append "bridge " b.id in
    problem_if
      (any_of (λ p. is_ble_server p.kind) b.ports && ltb max_ble_name_bytes (len b.public_name))
      object (long_public_name b.public_name (len b.public_name))
    ++ flat_map
        (λ p. port_warnings h checked b.enabled (append object (append " port " p.id)) p.kind)
        b.ports

unfoldable pub warnings_of : {N : Type 0} → Host → Bool → Config N → List Problem
unfolding bridge_warnings flat_map enabled_bridges problem_if
warnings_of h checked c =
    flat_map (bridge_warnings h checked) c.bridges
    ++ problem_if (not (is_nil c.bridges) && is_nil (enabled_bridges c)) "" no_bridge_enabled
    ++ problem_if (is_nil c.bridges) "" no_bridges
